-- ===== src/Profiles/Resolve.antt =====
-- What `resolve_profile` returns: for which names it succeeds, where the extensions and the critical
-- options come from, and that nothing unknown gets in.
use secure_sshlinux_client.Base.{
  ◌≡◌, refl, sym, subst, ap, inl, inr, true, false, Option, none, some, List, [], ◌∷◌, Text, codes,
  text_eq, contains, All-contains, ◌⊎◌, Dict, dict_get, dict_get-dict_set, keys, All,
  All-keys-dict_set, Bool-cases, if◌then◌else◌,
}
use secure_sshlinux_client.Errors.{ok, raised, api_error, null, profile_unknown}
use secure_sshlinux_client.Profiles.{
  CertificatePermissions, builtin_profiles, known_extensions, known_critical_option_keys,
  profile_names, or_else, or_nil, set_given, base_permissions, unknown_message, resolve_profile,
}

abbrev pub IsKnownExtension : Text → Type 0
IsKnownExtension ext = contains known_extensions ext ≡ true

abbrev pub IsKnownKey : Text → Type 0
IsKnownKey key = contains known_critical_option_keys key ≡ true

-- Only known extensions and known critical options.
pub record IsKnown (p : CertificatePermissions) : Type 0 where
  pub extensions : All IsKnownExtension p.extensions
  pub critical_options : All IsKnownKey (keys p.critical_options)

-- The value of a critical option after a convenience field has been merged in.
abbrev pub merged : Text → Option Text → Text → Option Text → Option Text
merged key none k old = old
merged key (some []) k old = old
merged key (some (c ∷ s)) k old = if text_eq key k then some (c ∷ s) else old

dict_get-set_given :
    (key : Text) (value : Option Text) (options : Dict Text) (k : Text)
    → dict_get (set_given key value options) k ≡ merged key value k (dict_get options k)
unfolding set_given
dict_get-set_given key none options k = refl
dict_get-set_given key (some []) options k = refl
dict_get-set_given key (some (c ∷ s)) options k = dict_get-dict_set options key k (c ∷ s)

All-keys-set_given {ℓ} :
    (P : Text → Type ℓ) (key : Text) (value : Option Text) (options : Dict Text)
    → All P (keys options)
    → P key
    → All P (keys (set_given key value options))
unfolding set_given
All-keys-set_given P key none options h p = h
All-keys-set_given P key (some []) options h p = h
All-keys-set_given P key (some (c ∷ s)) options h p = All-keys-dict_set P options key (c ∷ s) h p

force_command-known : IsKnownKey (codes "force-command")
unfolding contains text_eq
force_command-known = refl

source_address-known : IsKnownKey (codes "source-address")
unfolding contains text_eq
source_address-known = refl

abbrev pub KnownOverrides : Option (List Text) → Option (Dict Text) → Type 0
KnownOverrides eo co = All IsKnownExtension (or_nil eo) × All IsKnownKey (keys (or_nil co))

-- The permissions that a profile starts from: the caller's for "custom", the ones of the table of
-- built-in profiles for any other name.
abbrev pub IsBase : Option (List Text) → Option (Dict Text) → Text → CertificatePermissions → Type 0
IsBase eo co name base =
    ((name ≡ codes "custom")
      × (base ≡ record { extensions = or_nil eo; critical_options = or_nil co }))
    ⊎ ((text_eq name (codes "custom") ≡ false) × (dict_get builtin_profiles name ≡ some base))

abbrev HasBase : Option (List Text) → Option (Dict Text) → Text → Type 0
HasBase eo co name =
    (base : CertificatePermissions) × (base_permissions name eo co ≡ ok base)
    × IsBase eo co name base

abbrev HasKnownBase : Option (List Text) → Option (Dict Text) → Text → Type 0
HasKnownBase eo co name =
    (base : CertificatePermissions) × (base_permissions name eo co ≡ ok base) × IsKnown base

module _ (eo : Option (List Text)) (co : Option (Dict Text)) where
  -- A listed name never misses in the table of built-in profiles.
  base_permissions-total : (name : Text) → contains profile_names name ≡ true → HasBase eo co name
  unfolding base_permissions dict_get text_eq
  base_permissions-total name = All-contains (HasBase eo co) profile_names name (
    (_, refl, inr (refl, refl)),
    (
      (_, refl, inr (refl, refl)),
      (
        (_, refl, inr (refl, refl)),
        (
          (_, refl, inr (refl, refl)),
          (
            (_, refl, inr (refl, refl)),
            ((_, refl, inr (refl, refl)), ((_, refl, inl (refl, refl)), tt)),
          ),
        ),
      ),
    ),
  )

  base_permissions-known :
      (name : Text)
      → KnownOverrides eo co
      → contains profile_names name ≡ true
      → HasKnownBase eo co name
  unfolding base_permissions dict_get text_eq contains
  base_permissions-known name h = All-contains (HasKnownBase eo co) profile_names name (
    (_, refl, record { extensions = (refl, tt); critical_options = tt }),
    (
      (_, refl, record { extensions = (refl, (refl, (refl, tt))); critical_options = tt }),
      (
        (_, refl, record { extensions = (refl, tt); critical_options = tt }),
        (
          (_, refl, record { extensions = (refl, (refl, tt)); critical_options = tt }),
          (
            (_, refl, record { extensions = (refl, tt); critical_options = tt }),
            (
              (_, refl, record { extensions = (refl, tt); critical_options = tt }),
              ((_, refl, record { extensions = h.0; critical_options = h.1 }), tt),
            ),
          ),
        ),
      ),
    ),
  )

module _ (pn : Option Text) (dp : Text) (eo : Option (List Text)) (co : Option (Dict Text))
    (sa fc : Option Text) where
  abbrev pub resolved : CertificatePermissions → CertificatePermissions
  resolved base = record {
    extensions = base.extensions;
    critical_options =
        set_given (codes "force-command") fc
          (set_given (codes "source-address") sa base.critical_options);
  }

  pub resolve_profile-ok :
      contains profile_names (or_else pn dp) ≡ true
      → (base : CertificatePermissions) × (base_permissions (or_else pn dp) eo co ≡ ok base)
        × IsBase eo co (or_else pn dp) base
        × (resolve_profile pn dp eo co sa fc ≡ ok (resolved base))
  unfolding resolve_profile
  resolve_profile-ok h =
      let (base, e, is_base) = base_permissions-total eo co (or_else pn dp) h in
      (base, e, is_base, rw (h, e) refl)

  pub resolve_profile-unknown :
      contains profile_names (or_else pn dp) ≡ false
      → resolve_profile pn dp eo co sa fc
        ≡ raised (api_error 422 profile_unknown (unknown_message (or_else pn dp)) null)
  unfolding resolve_profile
  resolve_profile-unknown h = rw h refl

  pub contains_of_resolve_profile :
      (p : CertificatePermissions)
      → resolve_profile pn dp eo co sa fc ≡ ok p
      → contains profile_names (or_else pn dp) ≡ true
  contains_of_resolve_profile p e = elim (Bool-cases (contains profile_names (or_else pn dp))) [
    | inl h ↦ h
    | inr h ↦ cc (resolve_profile-unknown h)
  ]

  resolve_profile-eq-resolved :
      (p : CertificatePermissions)
      → resolve_profile pn dp eo co sa fc ≡ ok p
      → (base : CertificatePermissions) × (base_permissions (or_else pn dp) eo co ≡ ok base)
        × IsBase eo co (or_else pn dp) base
        × (resolved base ≡ p)
  resolve_profile-eq-resolved p e =
      let (base, b, is_base, r) = resolve_profile-ok (contains_of_resolve_profile p e) in
      (base, b, is_base, cc r)

  -- A result of `resolve_profile` has the extensions of the base permissions, which are the caller's for
  -- "custom" and the ones of the table of built-in profiles for any other name; and each of its critical
  -- options is `force_command` or `source_address`, where the key is theirs and they are given and not
  -- empty, and the option of the base permissions otherwise.
  pub resolve_profile-options :
      (p : CertificatePermissions)
      → resolve_profile pn dp eo co sa fc ≡ ok p
      → (base : CertificatePermissions) × IsBase eo co (or_else pn dp) base
        × (p.extensions ≡ base.extensions)
        × ((k : Text)
            → dict_get p.critical_options k
              ≡ merged
                  (codes "force-command")
                  fc
                  k
                  (merged (codes "source-address") sa k (dict_get base.critical_options k)))
  resolve_profile-options p e =
      let (base, _, is_base, r) = resolve_profile-eq-resolved p e in
      (
        base,
        is_base,
        ap (λ q. q.extensions) (sym r),
        λ k. rw (← r, dict_get-set_given, dict_get-set_given) refl,
      )

  -- A result of `resolve_profile` holds only known extensions and known critical options, if the
  -- caller's overrides do.
  pub resolve_profile-IsKnown :
      (p : CertificatePermissions)
      → KnownOverrides eo co
      → resolve_profile pn dp eo co sa fc ≡ ok p
      → IsKnown p
  resolve_profile-IsKnown p h e =
      let (base, b, _, r) = resolve_profile-eq-resolved p e in
      let (base', b', known) =
        base_permissions-known eo co (or_else pn dp) h (contains_of_resolve_profile p e) in
      let same : base' ≡ base = cc in rw (← r) (known_resolved base (subst IsKnown same known))
    where
      known_resolved : (base : CertificatePermissions) → IsKnown base → IsKnown (resolved base)
      known_resolved base k = record {
        extensions = k.extensions;
        critical_options =
            All-keys-set_given IsKnownKey (codes "force-command") fc _
              (All-keys-set_given IsKnownKey (codes "source-address") sa _ k.critical_options
                source_address-known)
              force_command-known;
      }
