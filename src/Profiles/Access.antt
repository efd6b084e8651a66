-- ===== src/Profiles/Access.antt =====
-- `check_role_profile_access` against the authorisation matrix of docs/specification.md, section 8.2,
-- which lists the roles of each profile where the code lists the profiles of each role.
use secure_sshlinux_client.Base.{
  All, ◌≡◌, refl, sym, ◌∙◌, Bool, true, false, List, [], ◌∷◌, Text, codes, text_eq, on_names,
  contains, Dict, dict_get, keys,
}
use secure_sshlinux_client.Errors.{ok, require, require-eq-ok, api_error, profile_forbidden, null}
use secure_sshlinux_client.Profiles.{
  forbidden_message, profile_names, profiles_of, role_allowed_profiles, check_role_profile_access,
}

-- The column of the roles that may issue each profile.
abbrev pub documented_roles : Dict (List Text)
documented_roles =
    (codes "development", codes "dev" ∷ codes "admin" ∷ [])
    ∷ (codes "zf_production", codes "dev" ∷ codes "prod" ∷ codes "admin" ∷ [])
    ∷ (codes "oem_production", codes "prod" ∷ codes "OEMprod" ∷ codes "admin" ∷ [])
    ∷ (
      codes "field_operation",
      codes "prod" ∷ codes "claims" ∷ codes "OEMprod" ∷ codes "admin" ∷ [],
    )
    ∷ (codes "claims_warranty", codes "claims" ∷ codes "admin" ∷ [])
    ∷ (codes "end_of_life", codes "prod" ∷ codes "admin" ∷ [])
    ∷ (codes "custom", codes "admin" ∷ [])
    ∷ []

abbrev pub documented : Text → Text → Bool
documented role profile = contains (profiles_of (dict_get documented_roles profile)) role

abbrev pub granted : Text → Text → Bool
granted role profile = contains (profiles_of (dict_get role_allowed_profiles role)) profile

-- The text equals none of the listed ones.
abbrev Unlisted : List Text → Text → Type 0
Unlisted names x = All (λ n. text_eq n x ≡ false) names

abbrev Agrees : Text → Text → Type 0
Agrees role profile = granted role profile ≡ documented role profile

documented-Unlisted :
    (role profile : Text) → Unlisted profile_names profile → documented role profile ≡ false
unfolding profiles_of dict_get contains
documented-Unlisted role profile (a, (b, (c, (d, (e, (f, (g, _))))))) = simp (a, b, c, d, e, f, g)

contains-Unlisted :
    (profile : Text)
    → Unlisted profile_names profile
    → All (λ row. contains row.1 profile ≡ false) role_allowed_profiles
unfolding contains
contains-Unlisted profile (a, (b, (c, (d, (e, (f, (g, _))))))) =
    simp (a, b, c, d, e, f, g) (assumption refl)

Agrees-dev : (profile : Text) → Agrees (codes "dev") profile
unfolding profiles_of dict_get contains text_eq
Agrees-dev =
    on_names (Agrees (codes "dev")) profile_names (assumption refl)
      λ p h. (contains-Unlisted p h).0 ∙ sym (documented-Unlisted (codes "dev") p h)

Agrees-prod : (profile : Text) → Agrees (codes "prod") profile
unfolding profiles_of dict_get contains text_eq
Agrees-prod =
    on_names (Agrees (codes "prod")) profile_names (assumption refl)
      λ p h. (contains-Unlisted p h).1.0 ∙ sym (documented-Unlisted (codes "prod") p h)

Agrees-claims : (profile : Text) → Agrees (codes "claims") profile
unfolding profiles_of dict_get contains text_eq
Agrees-claims =
    on_names (Agrees (codes "claims")) profile_names (assumption refl)
      λ p h. (contains-Unlisted p h).1.1.0 ∙ sym (documented-Unlisted (codes "claims") p h)

Agrees-oemprod : (profile : Text) → Agrees (codes "OEMprod") profile
unfolding profiles_of dict_get contains text_eq
Agrees-oemprod =
    on_names (Agrees (codes "OEMprod")) profile_names (assumption refl)
      λ p h. (contains-Unlisted p h).1.1.1.0 ∙ sym (documented-Unlisted (codes "OEMprod") p h)

Agrees-admin : (profile : Text) → Agrees (codes "admin") profile
unfolding profiles_of dict_get contains text_eq
Agrees-admin =
    on_names (Agrees (codes "admin")) profile_names (assumption refl)
      λ p h. (contains-Unlisted p h).1.1.1.1.0 ∙ sym (documented-Unlisted (codes "admin") p h)

Agrees-server : (profile : Text) → Agrees (codes "server") profile
unfolding profiles_of dict_get contains text_eq
Agrees-server =
    on_names (Agrees (codes "server")) profile_names (assumption refl)
      λ p h. (contains-Unlisted p h).1.1.1.1.1.0 ∙ sym (documented-Unlisted (codes "server") p h)

role_names : List Text
role_names = keys role_allowed_profiles

granted-Unlisted : (role profile : Text) → Unlisted role_names role → granted role profile ≡ false
unfolding role_names profiles_of dict_get contains
granted-Unlisted role profile (a, (b, (c, (d, (e, (f, _)))))) = simp (a, b, c, d, e, f)

documented-Unlisted_role :
    (role profile : Text) → Unlisted role_names role → documented role profile ≡ false
unfolding role_names profiles_of dict_get contains text_eq
documented-Unlisted_role role profile (a, (b, (c, (d, (e, _))))) =
    on_names (λ p. documented role p ≡ false) profile_names (simp (a, b, c, d, e) (assumption refl))
      (λ p h. documented-Unlisted role p h) profile

Agrees-all : (role profile : Text) → Agrees role profile
unfolding role_names
Agrees-all role =
    on_names (λ r. (p : Text) → Agrees r p) role_names
      (assumption
        (Agrees-dev, Agrees-prod, Agrees-claims, Agrees-oemprod, Agrees-admin, Agrees-server))
      (λ r h p. granted-Unlisted r p h ∙ sym (documented-Unlisted_role r p h)) role

-- For every role and every profile, listed or not, the check passes exactly where the documented
-- matrix has an entry, and raises the 403 error PROFILE_FORBIDDEN everywhere else.
pub check_role_profile_access-documented :
    (role profile : Text)
    → check_role_profile_access role profile
      ≡ require
          (documented role profile)
          (api_error 403 profile_forbidden (forbidden_message role profile) null)
unfolding check_role_profile_access
check_role_profile_access-documented role profile = rw (← Agrees-all role profile) refl

pub documented_of_check :
    (role profile : Text) {u : Unit {0}}
    → check_role_profile_access role profile ≡ ok u
    → documented role profile ≡ true
documented_of_check role profile e =
    require-eq-ok (documented role profile) _
      (sym (check_role_profile_access-documented role profile) ∙ e)
