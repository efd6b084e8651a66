-- ===== src/Startup/Ready.antt =====
-- What settings without start-up errors guarantee.
use secure_sshlinux_client.Base.{dict_get, text_eq}
use secure_sshlinux_client.Profiles.{set_given}
use secure_sshlinux_client.Base.{
  ℕ, ◌≤◌, ◌<◌, ◌^◌, ◌≡◌, refl, sym, ap, ◌∙◌, subst, inl, inr, Bool, true, false, not, Option, none,
  some, List, [], ◌∷◌, ◌++◌, arith, is_empty, Bool-cases, all, append_assoc, All, Text, codes,
  text_eq_refl, contains, contains-append, from_keys, Dict, keys, ℤ, pos, negsuc, pos_part,
}
use secure_sshlinux_client.Environment.{ParsedUrl, Library}
use secure_sshlinux_client.Errors.{CertType, user, host, ok}
use secure_sshlinux_client.Settings.{Settings, user_allowed_principal_list}
use secure_sshlinux_client.Profiles.{
  CertificatePermissions, builtin_profiles, profile_names, resolve_profile,
}
use secure_sshlinux_client.Profiles.Resolve.{resolve_profile-ok}
use secure_sshlinux_client.Validators.Ttl.{max_int_digits, ttl_or_default, normalize_ttl}
use secure_sshlinux_client.Validators.Ttl.Bounds.{normalize_ttl_default}
use secure_sshlinux_client.Validators.Principals.{validate_user_principals, requested_or_all}
use secure_sshlinux_client.Validators.Principals.User.{IsAllowed, validate_user_principals_complete}
use secure_sshlinux_client.Startup.{
  Machine, StartupValidationResult, ready, outcome_of, ensure_startup_ready, when, profile_errors,
  principal_errors, ttl_errors, url_errors, is_placeholder_token, token_values, user_tokens,
  placeholder_tokens, placeholder_errors, is_blank, server_token_errors, user_token_errors,
  startup_errors, validation_of, startup_validation,
}

append-eq-nil : {A : Type 0} (xs ys : List A) → xs ++ ys ≡ [] → (xs ≡ []) × (ys ≡ [])
append-eq-nil [] ys e = (refl, e)
append-eq-nil (x ∷ xs) ys e = cc

when-eq-nil : (b : Bool) (message : Text) → when b message ≡ [] → b ≡ false
when-eq-nil true message e = cc
when-eq-nil false message e = refl

-- The default is positive and at most the limit.
abbrev pub IsLimits : ℤ → ℤ → Type 0
IsLimits default_hours max_hours =
    (n : ℕ) × (limit : ℕ) × (default_hours ≡ pos n)
    × (max_hours ≡ pos limit)
    × (0 < n)
    × (n ≤ limit)

ttl_errors-eq-nil : (name : Text) (d m : ℤ) → ttl_errors name d m ≡ [] → IsLimits d m
unfolding ttl_errors
ttl_errors-eq-nil name (pos n) (pos limit) e = (n, limit, refl, refl, ground arith, ground arith)
ttl_errors-eq-nil name (pos n) (negsuc limit) e = ground arith
ttl_errors-eq-nil name (negsuc n) m e = cc

placeholder_tokens-eq-nil :
    (values : Dict Text)
    → placeholder_tokens values ≡ []
    → All (λ e. is_placeholder_token e.1 ≡ false) values
unfolding placeholder_tokens
placeholder_tokens-eq-nil [] e = tt
placeholder_tokens-eq-nil ((name, value) ∷ values) e =
    elim (Bool-cases (is_placeholder_token value)) [
      | inl b ↦ cc (rw b at e)
      | inr b ↦ (b, placeholder_tokens-eq-nil values (rw b at e))
    ]

is_empty-eq-nil : {A : Type 0} (xs : List A) → not (is_empty xs) ≡ false → xs ≡ []
is_empty-eq-nil [] e = refl
is_empty-eq-nil (x ∷ xs) e = cc

-- The settings that start-up accepts, as far as signing depends on them.
pub record IsReady (s : Settings) : Type 0 where
  pub profile : contains (keys builtin_profiles) s.default_user_profile ≡ true
  pub principals : is_empty (user_allowed_principal_list s) ≡ false
  pub user_ttl : IsLimits s.user_default_ttl_hours s.user_max_ttl_hours
  pub host_ttl : IsLimits s.host_default_ttl_hours s.host_max_ttl_hours
  pub tokens : All (λ e. is_placeholder_token e.1 ≡ false) (token_values s)
  pub server : is_blank s.token_server ≡ false
  pub users : all is_blank (user_tokens s) ≡ false

module _ (lib : Library) (machine : Machine) (check_files check_commands : Bool)
    (s : Settings) where
  startup_errors-eq-nil :
      (url : ParsedUrl)
      → startup_errors lib machine check_files check_commands s url ≡ []
      → IsReady s
  unfolding startup_errors profile_errors principal_errors placeholder_errors server_token_errors
      user_token_errors
  startup_errors-eq-nil url e =
      let (profile, e1) = append-eq-nil (profile_errors s) _ e in
      let (principals, e2) = append-eq-nil (principal_errors s) _ e1 in
      let (users, e3) =
        append-eq-nil (ttl_errors (codes "USER") s.user_default_ttl_hours s.user_max_ttl_hours) _
          e2 in
      let (hosts, e4) =
        append-eq-nil (ttl_errors (codes "HOST") s.host_default_ttl_hours s.host_max_ttl_hours) _
          e3 in
      let (_, e5) = append-eq-nil (url_errors url) _ e4 in
      let (tokens, e6) = append-eq-nil (placeholder_errors s) _ e5 in
      let (server, e7) = append-eq-nil (server_token_errors s) _ e6 in
      let (users_blank, _) = append-eq-nil (user_token_errors s) _ e7 in
      record {
        profile = ground (arith, when-eq-nil _ _ profile);
        principals = when-eq-nil _ _ principals;
        user_ttl =
            ttl_errors-eq-nil (codes "USER") s.user_default_ttl_hours s.user_max_ttl_hours users;
        host_ttl =
            ttl_errors-eq-nil (codes "HOST") s.host_default_ttl_hours s.host_max_ttl_hours hosts;
        tokens =
            placeholder_tokens-eq-nil (token_values s) (is_empty-eq-nil _ (when-eq-nil _ _ tokens));
        server = when-eq-nil _ _ server;
        users = when-eq-nil _ _ users_blank;
      }

  validation_of-IsReady :
      (parsed : Option ParsedUrl) (r : StartupValidationResult)
      → validation_of lib machine check_files check_commands s parsed ≡ some r
      → r.errors ≡ []
      → IsReady s
  unfolding validation_of
  validation_of-IsReady none r e h = cc
  validation_of-IsReady (some url) r e h = startup_errors-eq-nil url cc

  startup_validation-IsReady :
      (r : StartupValidationResult)
      → startup_validation lib machine check_files check_commands s ≡ some r
      → r.errors ≡ []
      → IsReady s
  unfolding startup_validation
  startup_validation-IsReady r e h =
      validation_of-IsReady (lib.urlparse s.broker_public_base_url) r e h

  outcome_of-eq-ready :
      (o : Option StartupValidationResult) (r : StartupValidationResult)
      → outcome_of o ≡ ready r
      → (o ≡ some r) × (r.errors ≡ [])
  unfolding outcome_of
  outcome_of-eq-ready none r e = cc
  outcome_of-eq-ready (some result) r e = elim (Bool-cases (is_empty result.errors)) [
    | inl none_found ↦
        let same : result ≡ r = cc (rw none_found at e) in
        (
          ap some same,
          ap (λ x. x.errors) (sym same) ∙ is_empty-eq-nil result.errors (rw none_found refl),
        )
    | inr found ↦ cc (rw found at e)
  ]

  -- Settings with which the broker starts have a built-in default profile, at least one allowed
  -- principal, positive default lifetimes within their limits, no placeholder among the role tokens, a
  -- server token and a user-signing token that are not blank.
  pub ensure_startup_ready-IsReady :
      (r : StartupValidationResult)
      → ensure_startup_ready lib machine check_files check_commands s ≡ ready r
      → IsReady s
  unfolding ensure_startup_ready
  ensure_startup_ready-IsReady r e =
      let (v, h) = outcome_of-eq-ready _ r e in startup_validation-IsReady r v h

contains_all : (front xs : List Text) → All (IsAllowed (front ++ xs)) xs
unfolding contains
contains_all front [] = tt
contains_all front (x ∷ xs) = (
  contains-append front (x ∷ xs) x ∙ rw text_eq_refl (ground arith),
  subst (λ l. All (IsAllowed l) xs) (append_assoc front (x ∷ []) xs)
      (contains_all (front ++ x ∷ []) xs),
)

-- What the checks of principals, lifetime and profile yield for a request that leaves them open.
pub record ServesDefaults (s : Settings) : Type 0 where
  pub principals :
      validate_user_principals none s ≡ ok (from_keys [] (user_allowed_principal_list s))
  pub user_ttl :
      normalize_ttl none s.user_default_ttl_hours s.user_max_ttl_hours user
      ≡ ok (ttl_or_default none s.user_default_ttl_hours)
  pub host_ttl :
      normalize_ttl none s.host_default_ttl_hours s.host_max_ttl_hours host
      ≡ ok (ttl_or_default none s.host_default_ttl_hours)
  pub permissions : CertificatePermissions
  pub built_in : dict_get builtin_profiles s.default_user_profile ≡ some permissions
  pub profile : resolve_profile none s.default_user_profile none none none none ≡ ok permissions

default_ttl :
    (d m : ℤ) (cert_type : CertType)
    → IsLimits d m
    → pos_part d < 10 ^ max_int_digits
    → normalize_ttl none d m cert_type ≡ ok (ttl_or_default none d)
unfolding ttl_or_default
default_ttl d m cert_type (n, limit, is_d, is_m, p, h) short =
    rw (is_d, is_m) (normalize_ttl_default n limit cert_type p h (rw is_d at short)).0

default_principals :
    (s : Settings)
    → is_empty (user_allowed_principal_list s) ≡ false
    → validate_user_principals none s ≡ ok (from_keys [] (user_allowed_principal_list s))
unfolding requested_or_all
default_principals s h =
    validate_user_principals_complete none s (contains_all [] (user_allowed_principal_list s))
      (λ e. cc)

custom-not_built_in :
    (name : Text) → name ≡ codes "custom" → ¬ (contains (keys builtin_profiles) name ≡ true)
unfolding contains text_eq
custom-not_built_in name custom h = cc (rw custom at h)

default_permissions :
    (name : Text)
    → contains (keys builtin_profiles) name ≡ true
    → (p : CertificatePermissions) × (dict_get builtin_profiles name ≡ some p)
      × (resolve_profile none name none none none none ≡ ok p)
default_permissions name h =
    let known : contains profile_names name ≡ true =
      contains-append (keys builtin_profiles) (codes "custom" ∷ []) name ∙ rw h refl in
    let (base, _, is_base, e) = resolve_profile-ok none name none none none none known in
    elim is_base [
      | inl (custom, _) ↦ absurd (custom-not_built_in name custom h)
      | inr (_, found) ↦ (base, found, unfold set_given in e)
    ]

-- With settings that start-up accepts, the checks of the principals, of the lifetime and of the profile's
-- name succeed for a request that leaves them open: they yield all allowed principals, the default
-- lifetimes for users and hosts, and the permissions that the table of built-in profiles has for the
-- default profile. The default lifetimes must be below 10 ^ 4300. Whether the caller's role may use that
-- profile is another check, which start-up does not look at.
pub ensure_startup_ready-ServesDefaults :
    (lib : Library) (machine : Machine) (check_files check_commands : Bool) (s : Settings)
    (r : StartupValidationResult)
    → ensure_startup_ready lib machine check_files check_commands s ≡ ready r
    → pos_part s.user_default_ttl_hours < 10 ^ max_int_digits
    → pos_part s.host_default_ttl_hours < 10 ^ max_int_digits
    → ServesDefaults s
ensure_startup_ready-ServesDefaults lib machine check_files check_commands s r e short_user
      short_host =
    let started = ensure_startup_ready-IsReady lib machine check_files check_commands s r e in
    let (p, built_in, profile) = default_permissions s.default_user_profile started.profile in
    record {
      principals = default_principals s started.principals;
      user_ttl =
          default_ttl s.user_default_ttl_hours s.user_max_ttl_hours user started.user_ttl
            short_user;
      host_ttl =
          default_ttl s.host_default_ttl_hours s.host_max_ttl_hours host started.host_ttl
            short_host;
      permissions = p;
      built_in = built_in;
      profile = profile;
    }
