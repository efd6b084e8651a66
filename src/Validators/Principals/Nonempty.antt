-- ===== src/Validators/Principals/Nonempty.antt =====
-- The last check of both principal validators: something must be left.
use secure_sshlinux_client.Base.{◌≡◌, ◌≢◌, refl, List, [], ◌∷◌, Text}
use secure_sshlinux_client.Errors.{ok}
use secure_sshlinux_client.Validators.Principals.{nonempty_principals}

pub nonempty_principals-eq-ok :
    (message : Text) (xs r : List Text)
    → nonempty_principals message xs ≡ ok r
    → (r ≡ xs) × (r ≢ [])
unfolding nonempty_principals
nonempty_principals-eq-ok message [] r e = cc
nonempty_principals-eq-ok message (x ∷ xs) r e = (cc, λ h. cc)

pub nonempty_principals-ok :
    (message : Text) (xs : List Text) → xs ≢ [] → nonempty_principals message xs ≡ ok xs
unfolding nonempty_principals
nonempty_principals-ok message [] h = absurd (h refl)
nonempty_principals-ok message (x ∷ xs) h = refl
