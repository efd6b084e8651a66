-- ===== src/Auth.antt =====
-- app/security/auth.py: from the Authorization header to a role.
pub mod Laws
use secure_sshlinux_client.Base.{
  Bool, not, Option, none, some, List, [], ◌∷◌, ◌++◌, is_empty, take, drop, if◌then◌else◌, Text,
  codes, text_eq, contains, starts_with, lower, strip, Dict,
}
use secure_sshlinux_client.Errors.{
  ErrorCode, Result, ok, raised, ◌>>=◌, ◌>>◌, require, Exception, api_error, absent, auth_required,
  auth_invalid, auth_forbidden,
}
use secure_sshlinux_client.Settings.{Settings, token_map}

pub record AuthContext : Type 0 where
  pub role : Text
  pub token_hint : Text

-- These errors have no entry `details`.
abbrev pub unauthorized : ErrorCode → Text → Exception
unauthorized error_code message = api_error 401 error_code message absent

abbrev pub forbidden : Text → Exception
forbidden message = api_error 403 auth_forbidden message absent

abbrev pub bearer_prefix : Text
bearer_prefix = codes "bearer "

-- The header is present and not empty.
unfoldable pub token_of_header : Text → Result Text
token_of_header authorization = do
  require (starts_with bearer_prefix (lower authorization))
      (unauthorized auth_invalid (codes "Expected Bearer token"))
  let token = strip (drop 7 authorization)
  require (not (is_empty token)) (unauthorized auth_invalid (codes "Empty Bearer token"))
  ok token

-- `_bearer_token`
unfoldable pub bearer_token : Option Text → Result Text
bearer_token none = raised (unauthorized auth_required (codes "Missing Authorization header"))
bearer_token (some []) = raised (unauthorized auth_required (codes "Missing Authorization header"))
bearer_token (some (c ∷ s)) = token_of_header (c ∷ s)

-- The loop over the token map: the first role whose token is the given one.
unfoldable pub find_role : Text → Dict Text → Result AuthContext
find_role token [] = raised (forbidden (codes "Token is not allowed"))
find_role token ((role, expected) ∷ tokens) =
    if text_eq token expected
    then ok (record { role = role; token_hint = role ++ (codes ":" ++ take 6 token) })
    else find_role token tokens

unfoldable pub require_auth : Option Text → Settings → Result AuthContext
require_auth authorization settings = do
  token ← bearer_token authorization
  find_role token (token_map settings)

abbrev pub user_sign_roles : List Text
user_sign_roles = codes "dev" ∷ codes "prod" ∷ codes "claims" ∷ codes "OEMprod" ∷ codes "admin" ∷ []

abbrev pub host_sign_roles : List Text
host_sign_roles = codes "server" ∷ codes "admin" ∷ []

unfoldable pub require_user_sign_role : AuthContext → Result AuthContext
require_user_sign_role auth = do
  require (contains user_sign_roles auth.role) (forbidden (codes "Role cannot sign user certs"))
  ok auth

unfoldable pub require_host_sign_role : AuthContext → Result AuthContext
require_host_sign_role auth = do
  require (contains host_sign_roles auth.role) (forbidden (codes "Role cannot sign host certs"))
  ok auth
