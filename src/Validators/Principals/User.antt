-- ===== src/Validators/Principals/User.antt =====
-- The user principals that a certificate can be signed for.
use secure_sshlinux_client.Base.{
  ◌≡◌, ◌≢◌, ◌↔◌, refl, ◌∙◌, inl, inr, true, false, Option, List, [], ◌∷◌, arith, All, Bool-cases,
  Text, contains, append_new, from_keys, from_keys-Distinct, from_keys-ne-nil, All-from_keys,
  text_eq_iff, contains-from_keys, Distinct,
}
use secure_sshlinux_client.Errors.{ok, >>=-eq-ok, Raises, Raises->>=, principal_not_allowed}
use secure_sshlinux_client.Settings.{Settings, user_allowed_principal_list}
use secure_sshlinux_client.Validators.Principals.Nonempty.{
  nonempty_principals-eq-ok, nonempty_principals-ok,
}
use secure_sshlinux_client.Validators.Principals.{
  keep_allowed, requested_or_all, validate_user_principals,
}

abbrev pub IsAllowed : List Text → Text → Type 0
IsAllowed allowed p = contains allowed p ≡ true

module _ (allowed : List Text) where
  keep_allowed-cons :
      (normalized : List Text) (p : Text) (ps r : List Text)
      → (keep_allowed allowed normalized (p ∷ ps) ≡ ok r)
        ↔ ((contains allowed p ≡ true) × (keep_allowed allowed (append_new normalized p) ps ≡ ok r))
  unfolding keep_allowed
  keep_allowed-cons normalized p ps r = ground arith

  -- The loop succeeds where everything requested is allowed, and drops repetitions.
  keep_allowed_iff :
      (normalized ps r : List Text)
      → (keep_allowed allowed normalized ps ≡ ok r)
        ↔ (All (IsAllowed allowed) ps × (r ≡ from_keys normalized ps))
  unfolding keep_allowed from_keys
  keep_allowed_iff normalized [] r = ground arith
  keep_allowed_iff normalized (p ∷ ps) r =
      ground (
        arith,
        keep_allowed-cons normalized p ps r,
        keep_allowed_iff (append_new normalized p) ps r,
      )

  keep_allowed-Raises :
      (normalized ps : List Text) (p : Text)
      → contains ps p ≡ true
      → contains allowed p ≡ false
      → Raises principal_not_allowed (keep_allowed allowed normalized ps)
  unfolding keep_allowed contains
  keep_allowed-Raises normalized [] p h bad = cc
  keep_allowed-Raises normalized (q ∷ ps) p h bad = elim (Bool-cases (contains allowed q)) [
    | inl good ↦
        rw good
          (keep_allowed-Raises (append_new normalized q) ps p (ground (arith, text_eq_iff q p)) bad)
    | inr e ↦ rw e refl
  ]

module _ (requested : Option (List Text)) (settings : Settings) where
  abbrev pub allowed_list : List Text
  allowed_list = user_allowed_principal_list settings

  -- The requested principals, or all allowed ones where none are requested.
  abbrev pub wanted : List Text
  wanted = requested_or_all requested allowed_list

  validate_user_principals_inv :
      (r : List Text)
      → validate_user_principals requested settings ≡ ok r
      → All (IsAllowed allowed_list) wanted × (r ≡ from_keys [] wanted) × (r ≢ [])
  unfolding validate_user_principals
  validate_user_principals_inv r e =
      let (kept, k, e') = >>=-eq-ok (keep_allowed allowed_list [] wanted) _ e in
      let (same, nonempty) = nonempty_principals-eq-ok _ kept r e' in
      let (all_allowed, keys) = (keep_allowed_iff allowed_list [] wanted kept).0 k in
      (all_allowed, same ∙ keys, nonempty)

  -- The principals of a user certificate are not none, none stands twice, each is allowed by the
  -- settings, and they are exactly the requested ones, or all allowed ones where none are requested.
  pub validate_user_principals_sound :
      (r : List Text)
      → validate_user_principals requested settings ≡ ok r
      → (r ≢ [])
        × Distinct r
        × All (IsAllowed allowed_list) r
        × ((x : Text) → contains r x ≡ contains wanted x)
  validate_user_principals_sound r e =
      let (all_allowed, keys, nonempty) = validate_user_principals_inv r e in
      (
        nonempty,
        rw keys (from_keys-Distinct [] wanted tt),
        rw keys (All-from_keys (IsAllowed allowed_list) [] wanted tt all_allowed),
        λ x. rw (keys, contains-from_keys) (unfold contains in refl),
      )

  -- A request is accepted if all that it asks for is allowed and it asks for something.
  pub validate_user_principals_complete :
      All (IsAllowed allowed_list) wanted
      → wanted ≢ []
      → validate_user_principals requested settings ≡ ok (from_keys [] wanted)
  unfolding validate_user_principals
  validate_user_principals_complete h nonempty =
      rw ((keep_allowed_iff allowed_list [] wanted _).1 (h, refl))
        (nonempty_principals-ok _ _ (from_keys-ne-nil [] wanted nonempty))

  -- One principal that the settings do not allow makes the whole request fail with
  -- PRINCIPAL_NOT_ALLOWED.
  validate_user_principals-Raises :
      (p : Text)
      → contains wanted p ≡ true
      → contains allowed_list p ≡ false
      → Raises principal_not_allowed (validate_user_principals requested settings)
  unfolding validate_user_principals
  validate_user_principals-Raises p h bad =
      Raises->>= principal_not_allowed (keep_allowed allowed_list [] wanted) _
        (keep_allowed-Raises allowed_list [] wanted p h bad)
