-- ===== src/Startup.antt =====
-- `Settings.startup_validation` and `ensure_startup_ready` of app/config.py.
pub mod Ready
use secure_sshlinux_client.Base.{
  Bool, true, false, not, ◌&&◌, ◌||◌, Option, none, some, List, [], ◌∷◌, ◌++◌, ◌==◌, all, is_empty,
  if◌then◌else◌, Text, codes, text_eq, contains, starts_with, strip, join, sorted, Dict, keys, ℤ,
  ltb_ℤ, is_nonpositive,
}
use secure_sshlinux_client.Environment.{ParsedUrl, Library}
use secure_sshlinux_client.Settings.{Settings, user_allowed_principal_list}
use secure_sshlinux_client.Profiles.{builtin_profiles}

-- What start-up finds on the machine: tests on paths, the text of `Path(p)`, and whether ssh-keygen is
-- in PATH.
pub record Machine : Type 0 where
  pub exists : Text → Bool
  pub is_dir : Text → Bool
  pub is_file : Text → Bool
  pub path_text : Text → Text
  pub has_ssh_keygen : Bool

pub record StartupValidationResult : Type 0 where
  pub errors : List Text
  pub warnings : List Text

-- `[message] if test else []`
abbrev pub when : Bool → Text → List Text
when true message = message ∷ []
when false message = []

unfoldable pub profile_errors : Settings → List Text
profile_errors s = when (not (contains (keys builtin_profiles) s.default_user_profile)) (
    codes "DEFAULT_USER_PROFILE must be one of: "
    ++ join (codes ", ") (sorted (keys builtin_profiles)))

unfoldable pub principal_errors : Settings → List Text
principal_errors s =
    when (is_empty (user_allowed_principal_list s))
      (codes "USER_ALLOWED_PRINCIPALS must define at least one principal")

-- The limits of one kind of certificate; `name` is USER or HOST.
unfoldable pub ttl_errors : Text → ℤ → ℤ → List Text
ttl_errors name default_hours max_hours =
    if is_nonpositive default_hours || is_nonpositive max_hours
    then (name
        ++ codes "_DEFAULT_TTL_HOURS and "
        ++ name
        ++ codes "_MAX_TTL_HOURS must be positive")
      ∷ []
    else when (ltb_ℤ max_hours default_hours) (
        name
        ++ codes "_DEFAULT_TTL_HOURS must be less than or equal to "
        ++ name
        ++ codes "_MAX_TTL_HOURS")

abbrev pub local_broker_hosts : List Text
local_broker_hosts = codes "localhost" ∷ codes "127.0.0.1" ∷ codes "::1" ∷ []

-- `hostname or ""`
abbrev pub hostname_of : ParsedUrl → Text
hostname_of url = elim url.hostname [ none ↦ [] | some name ↦ name ]

abbrev has_authority : ParsedUrl → Bool
has_authority url = not (is_empty url.scheme) && not (is_empty url.netloc)

unfoldable pub url_errors : ParsedUrl → List Text
url_errors url =
    if has_authority url
    then when
        (not (text_eq url.scheme (codes "https"))
          && not (contains local_broker_hosts (hostname_of url)))
        (codes "BROKER_PUBLIC_BASE_URL must use https outside localhost to align "
          ++ codes "with the commercial X.509 TLS boundary")
    else codes "BROKER_PUBLIC_BASE_URL must be a fully qualified URL" ∷ []

unfoldable pub is_placeholder_token : Text → Bool
is_placeholder_token token =
    let value = strip token in
    not (is_empty value)
    && (starts_with (codes "change-me-") value
        || contains
            (codes "admin-token-123" ∷ codes "client-token-123" ∷ codes "server-token-123" ∷ [])
            value)

abbrev pub token_values : Settings → Dict Text
token_values s =
    (codes "TOKEN_DEV", s.token_dev)
    ∷ (codes "TOKEN_PROD", s.token_prod)
    ∷ (codes "TOKEN_CLAIMS", s.token_claims)
    ∷ (codes "TOKEN_OEMPROD", s.token_oemprod)
    ∷ (codes "TOKEN_SERVER", s.token_server)
    ∷ (codes "TOKEN_ADMIN", s.token_admin)
    ∷ []

unfoldable pub placeholder_tokens : Dict Text → List Text
placeholder_tokens [] = []
placeholder_tokens ((name, value) ∷ values) =
    let rest = placeholder_tokens values in if is_placeholder_token value then name ∷ rest else rest

unfoldable pub placeholder_errors : Settings → List Text
placeholder_errors s =
    let names = placeholder_tokens (token_values s) in
    when (not (is_empty names))
      (codes "Replace placeholder tokens before startup: " ++ join (codes ", ") (sorted names))

abbrev pub is_blank : Text → Bool
is_blank token = is_empty (strip token)

unfoldable pub server_token_errors : Settings → List Text
server_token_errors s =
    when (is_blank s.token_server)
      (codes "TOKEN_SERVER must be configured for host certificate bootstrap and host signing")

-- `user_signing_tokens`
abbrev pub user_tokens : Settings → List Text
user_tokens s = s.token_dev ∷ s.token_prod ∷ s.token_claims ∷ s.token_oemprod ∷ s.token_admin ∷ []

unfoldable pub user_token_errors : Settings → List Text
user_token_errors s = when (all is_blank (user_tokens s)) (
    codes "Configure at least one user-signing role token "
    ++ codes "(TOKEN_DEV/TOKEN_PROD/TOKEN_CLAIMS/TOKEN_OEMPROD/TOKEN_ADMIN)")

module _ (lib : Library) (machine : Machine) where
  -- `_is_ip_literal`
  unfoldable pub is_ip_literal : Text → Bool
  is_ip_literal = all (λ c. lib.is_digit c || (c == b'.') || (c == b':'))

  unfoldable pub url_warnings : ParsedUrl → List Text
  url_warnings url =
      when
        (has_authority url && not (is_empty (hostname_of url)) && is_ip_literal (hostname_of url))
        (codes "BROKER_PUBLIC_BASE_URL uses an IP literal; prefer a DNS name backed "
          ++ codes "by the commercial X.509 PKI")

  unfoldable pub temp_dir_errors : Settings → List Text
  temp_dir_errors s =
      when (machine.exists s.temp_dir && not (machine.is_dir s.temp_dir))
        (codes "TEMP_DIR must be a directory path: " ++ machine.path_text s.temp_dir)

  unfoldable pub missing_files : Dict Text → List Text
  missing_files [] = []
  missing_files ((label, raw_path) ∷ paths) =
      when (not (machine.is_file raw_path))
        (label ++ codes " does not point to a readable file: " ++ machine.path_text raw_path)
      ++ missing_files paths

  unfoldable pub file_errors : Bool → Settings → List Text
  file_errors false s = []
  file_errors true s = missing_files (
      (codes "USER_CA_PRIVATE_KEY", s.user_ca_private_key)
      ∷ (codes "USER_CA_PUBLIC_KEY", s.user_ca_public_key)
      ∷ (codes "HOST_CA_PRIVATE_KEY", s.host_ca_private_key)
      ∷ (codes "HOST_CA_PUBLIC_KEY", s.host_ca_public_key)
      ∷ [])

  unfoldable pub command_errors : Bool → List Text
  command_errors check_commands =
      when (check_commands && not machine.has_ssh_keygen)
        (codes "ssh-keygen must be installed and available in PATH")

  -- All errors, in the order in which they are found.
  unfoldable pub startup_errors : Bool → Bool → Settings → ParsedUrl → List Text
  startup_errors check_files check_commands s url =
      profile_errors s
      ++ (principal_errors s
          ++ (ttl_errors (codes "USER") s.user_default_ttl_hours s.user_max_ttl_hours
              ++ (ttl_errors (codes "HOST") s.host_default_ttl_hours s.host_max_ttl_hours
                  ++ (url_errors url
                      ++ (placeholder_errors s
                          ++ (server_token_errors s
                              ++ (user_token_errors s
                                  ++ (temp_dir_errors s
                                      ++ (file_errors check_files s
                                          ++ command_errors check_commands)))))))))

  unfoldable pub validation_of :
      Bool → Bool → Settings → Option ParsedUrl → Option StartupValidationResult
  validation_of check_files check_commands s none = none
  validation_of check_files check_commands s (some url) = some (record {
    errors = startup_errors check_files check_commands s url;
    warnings = url_warnings url;
  })

  -- `startup_validation`; `none` where `urlparse` raises.
  unfoldable pub startup_validation : Bool → Bool → Settings → Option StartupValidationResult
  startup_validation check_files check_commands s =
      validation_of check_files check_commands s (lib.urlparse s.broker_public_base_url)

-- How `ensure_startup_ready` ends: with the result, with the `RuntimeError` that lists the errors, or
-- with the `ValueError` of `urlparse`.
pub data StartupOutcome : Type 0 where
  ready : StartupValidationResult → StartupOutcome
  startup_failed : Text → StartupOutcome
  invalid_url : StartupOutcome

unfoldable pub outcome_of : Option StartupValidationResult → StartupOutcome
outcome_of none = invalid_url
outcome_of (some result) =
    if is_empty result.errors
    then ready result
    else startup_failed
        (codes "Startup validation failed:\n- " ++ join (codes "\n- ") result.errors)

-- `ensure_startup_ready`
unfoldable pub ensure_startup_ready : Library → Machine → Bool → Bool → Settings → StartupOutcome
ensure_startup_ready lib machine check_files check_commands s =
    outcome_of (startup_validation lib machine check_files check_commands s)
