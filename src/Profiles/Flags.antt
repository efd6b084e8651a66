-- ===== src/Profiles/Flags.antt =====
-- Reading the flags of `build_keygen_options` back: an independent description of what ssh-keygen is
-- told, and the round trip.
use secure_sshlinux_client.Base.{
  ◌≡◌, ◌&&◌, append-nil, refl, ◌≢◌, Option, none, some, List, [], ◌∷◌, ◌++◌, arith, Text, codes,
  text_eq, starts_with, drop, All, Dict, keys, ◌==◌, if◌then◌else◌,
}
use secure_sshlinux_client.Profiles.{
  CertificatePermissions, extension_flags, critical_flag, critical_flags, build_keygen_options,
}

-- A text up to the first `=`, and what follows it, if there is one.
pub cut_at_equals : Text → Text × Option Text
cut_at_equals [] = ([], none)
cut_at_equals (c ∷ s) =
    let (key, value) = cut_at_equals s in if c == b'=' then ([], some s) else (c ∷ key, value)

abbrev option_of : Text × Option Text → Text × Text
option_of (key, none) = (key, [])
option_of (key, some value) = (key, value)

-- One flag in front of the permissions that the later flags give.
pub add_flag : Text → CertificatePermissions → Option CertificatePermissions
add_flag flag p =
    if starts_with (codes "extension:") flag
    then some (record p { extensions = drop 10 flag ∷ p.extensions })
    else if starts_with (codes "critical:") flag
    then some (record p {
      critical_options = option_of (cut_at_equals (drop 9 flag)) ∷ p.critical_options;
    })
    else none

abbrev and_then {ℓ κ} : {A : Type ℓ} {B : Type κ} → Option A → (A → Option B) → Option B
and_then none f = none
and_then (some a) f = f a

pub read_pairs : List Text → Option CertificatePermissions
read_pairs [] = some (record { extensions = []; critical_options = [] })
read_pairs (o ∷ []) = none
read_pairs (o ∷ flag ∷ flags) =
    let rest = read_pairs flags in
    if text_eq o (codes "-O") then and_then rest (add_flag flag) else none

-- The permissions that a command line grants when all default extensions are cleared first; a command
-- line that does not begin with `-O clear` is refused.
pub read_options : List Text → Option CertificatePermissions
read_options [] = none
read_options (o ∷ []) = none
read_options (o ∷ first ∷ flags) =
    if text_eq o (codes "-O") && text_eq first (codes "clear") then read_pairs flags else none

-- The key can stand before an `=`.
abbrev pub IsPlainKey : Text → Type 0
IsPlainKey = All (λ c. c ≢ b'=')

cut_at_equals_plain : (key : Text) → IsPlainKey key → cut_at_equals key ≡ (key, none)
unfolding cut_at_equals
cut_at_equals_plain [] h = refl
cut_at_equals_plain (c ∷ key) (p, h) = ground (arith, cut_at_equals_plain key h)

cut_at_equals-append :
    (key value : Text) → IsPlainKey key → cut_at_equals (key ++ (b'=' ∷ value)) ≡ (key, some value)
unfolding cut_at_equals
cut_at_equals-append [] value h = refl
cut_at_equals-append (c ∷ key) value (p, h) = ground (arith, cut_at_equals-append key value h)

add_flag-critical_flag :
    (key value : Text) (p : CertificatePermissions)
    → IsPlainKey key
    → add_flag (critical_flag key value) p
      ≡ some (record p { critical_options = (key, value) ∷ p.critical_options })
unfolding add_flag critical_flag starts_with
add_flag-critical_flag key [] p h = rw (cut_at_equals_plain key h) refl
add_flag-critical_flag key (c ∷ value) p h = rw (cut_at_equals-append key (c ∷ value) h) refl

read_pairs-critical_flags :
    (options : Dict Text)
    → All IsPlainKey (keys options)
    → read_pairs (critical_flags options)
      ≡ some (record { extensions = []; critical_options = options })
unfolding read_pairs critical_flags text_eq
read_pairs-critical_flags [] h = refl
read_pairs-critical_flags ((key, value) ∷ options) (p, h) =
    rw (read_pairs-critical_flags options h) (add_flag-critical_flag key value _ p)

read_pairs-extension_flags :
    (exts : List Text) (flags : List Text) (p : CertificatePermissions)
    → read_pairs flags ≡ some p
    → read_pairs (extension_flags exts ++ flags)
      ≡ some (record p { extensions = exts ++ p.extensions })
unfolding read_pairs extension_flags text_eq add_flag starts_with
read_pairs-extension_flags [] flags p h = h
read_pairs-extension_flags (ext ∷ exts) flags p h =
    rw (read_pairs-extension_flags exts flags p h) refl

-- The flags that `build_keygen_options` emits are read back as exactly the given permissions: all
-- default extensions are cleared, and nothing is granted, dropped or reordered. The keys of the
-- critical options must hold no `=`.
pub read_options-build_keygen_options :
    (p : CertificatePermissions)
    → All IsPlainKey (keys p.critical_options)
    → read_options (build_keygen_options p) ≡ some p
unfolding read_options build_keygen_options text_eq
read_options-build_keygen_options p h =
    rw
      (
        read_pairs-extension_flags p.extensions _ _
            (read_pairs-critical_flags p.critical_options h),
        append-nil,
      )
      refl
