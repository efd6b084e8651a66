-- ===== src/Auth/Laws.antt =====
-- Which requests are authenticated, as which role, and which configured tokens can never be used.
use secure_sshlinux_client.Base.{
  ◌≡◌, ◌≢◌, refl, subst, inl, inr, not, Option, none, some, [], ◌∷◌, ◌++◌, take, is_empty,
  Bool-cases, Text, codes, text_eq, text_eq_iff, contains, Distinct, strip, strip-strip, Dict,
  dict_get, keys, dict_get-fresh, text_eq_refl, ℕ, starts_with, lower, drop,
}
use secure_sshlinux_client.Errors.{
  ok, >>=-eq-ok, require, ok-injective, Ensures, Ensures-ok, Ensures-bind, auth_invalid,
}
use secure_sshlinux_client.Settings.{Settings, drop_empty, role_tokens, token_map}
use secure_sshlinux_client.Auth.{
  AuthContext, bearer_prefix, unauthorized, token_of_header, bearer_token, find_role, require_auth,
}

-- The token that the settings give to a role, if there is such a role.
abbrev pub configured : Settings → Text → Option Text
configured settings role = dict_get (role_tokens settings) role

-- The role has the token in the dictionary, and the hint is made of both.
abbrev IsRoleOf : Text → Dict Text → AuthContext → Type 0
IsRoleOf token d auth =
    (dict_get d auth.role ≡ some token)
    × (token ≢ [])
    × (auth.token_hint ≡ auth.role ++ (codes ":" ++ take 6 token))

find_role-head :
    (token role : Text) (c : ℕ) (s : Text) (d : Dict Text)
    → token ≡ c ∷ s
    → IsRoleOf token
        ((role, c ∷ s) ∷ d)
        (record { role = role; token_hint = role ++ (codes ":" ++ take 6 token) })
unfolding dict_get
find_role-head token role c s d same = (rw (text_eq_refl, same) refl, λ h. cc, refl)

-- The first role of a dictionary whose token is the given one is found with this token, which is not
-- empty.
find_role-drop_empty :
    (token : Text) (d : Dict Text) (auth : AuthContext)
    → Distinct (keys d)
    → find_role token (drop_empty d) ≡ ok auth
    → IsRoleOf token d auth
unfolding find_role drop_empty
find_role-drop_empty token [] auth h e = cc
find_role-drop_empty token ((role, []) ∷ d) auth (fresh, h) e =
    let (found, nonempty, hint) = find_role-drop_empty token d auth h e in
    (dict_get-fresh d role auth.role [] fresh found, nonempty, hint)
find_role-drop_empty token ((role, c ∷ s) ∷ d) auth (fresh, h) e =
    elim (Bool-cases (text_eq token (c ∷ s))) [
      | inl same ↦
          subst (IsRoleOf token ((role, c ∷ s) ∷ d)) (ok-injective (rw same at e))
            (find_role-head token role c s d ((text_eq_iff token (c ∷ s)).0 same))
      | inr other ↦
          let (found, nonempty, hint) = find_role-drop_empty token d auth h (rw other at e) in
          (dict_get-fresh d role auth.role (c ∷ s) fresh found, nonempty, hint)
    ]

Distinct-role_tokens : (settings : Settings) → Distinct (keys (role_tokens settings))
unfolding contains text_eq
Distinct-role_tokens settings = assumption refl

-- Who is authenticated presents, after `Bearer` and without white space at its ends, the token that
-- the settings give to the role; the token is not empty, so a role without a token is never given.
pub require_auth_sound :
    (authorization : Option Text) (settings : Settings) (auth : AuthContext)
    → require_auth authorization settings ≡ ok auth
    → (token : Text) × (bearer_token authorization ≡ ok token)
      × (configured settings auth.role ≡ some token)
      × (token ≢ [])
unfolding require_auth token_map
require_auth_sound authorization settings auth e =
    let (token, b, e') = >>=-eq-ok (bearer_token authorization) _ e in
    let (found, nonempty, _) =
      find_role-drop_empty token (role_tokens settings) auth (Distinct-role_tokens settings) e' in
    (token, b, found, nonempty)

token_of_header-Ensures :
    (authorization : Text) → Ensures (λ t. strip t ≡ t) (token_of_header authorization)
unfolding token_of_header
token_of_header-Ensures authorization =
    Ensures-bind
      (require (starts_with bearer_prefix (lower authorization))
        (unauthorized auth_invalid (codes "Expected Bearer token")))
      λ _ _.
        Ensures-bind
          (require (not (is_empty (strip (drop 7 authorization))))
            (unauthorized auth_invalid (codes "Empty Bearer token")))
          λ _ _. Ensures-ok (strip-strip _)

bearer_token-Ensures :
    (authorization : Option Text) → Ensures (λ t. strip t ≡ t) (bearer_token authorization)
unfolding bearer_token
bearer_token-Ensures none = record { holds = λ a e. cc }
bearer_token-Ensures (some []) = record { holds = λ a e. cc }
bearer_token-Ensures (some (c ∷ s)) = token_of_header-Ensures (c ∷ s)

-- A configured token that begins or ends with white space authenticates nobody: the token of a request
-- is stripped before it is compared, and the configured one is not.
pub require_auth-configured :
    (authorization : Option Text) (settings : Settings) (auth : AuthContext) (token : Text)
    → configured settings auth.role ≡ some token
    → strip token ≢ token
    → require_auth authorization settings ≢ ok auth
require_auth-configured authorization settings auth token c h e =
    let (presented, b, found, _) = require_auth_sound authorization settings auth e in
    let same : presented ≡ token = cc in
    h (subst (λ t. strip t ≡ t) same ((bearer_token-Ensures authorization).holds presented b))
