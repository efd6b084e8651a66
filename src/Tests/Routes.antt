-- ===== src/Tests/Routes.antt =====
-- The theorems on the endpoints.
use secure_sshlinux_client.Routes.{authorized, sign_user_with, sign_host_with, finish}
use secure_sshlinux_client.Auth.{
  require_auth, bearer_token, token_of_header, find_role, require_user_sign_role,
  require_host_sign_role,
}
use secure_sshlinux_client.Base.{starts_with, from_keys}
use secure_sshlinux_client.Settings.{token_map, drop_empty}
use secure_sshlinux_client.Signing.{
  sign_certificate, store_certificate, run_ssh_keygen, certificate_of_run,
}
use secure_sshlinux_client.Store.{get, put}
use secure_sshlinux_client.Validators.Principals.{
  validate_host_principals, keep_hosts, matches_hostname, matches_label,
}
use secure_sshlinux_client.Validators.Ttl.{normalize_ttl}
use secure_sshlinux_client.Validators.Principals.{validate_user_principals}
use secure_sshlinux_client.Validators.Principals.{requested_or_all}
use secure_sshlinux_client.Validators.Principals.{nonempty_principals}
use secure_sshlinux_client.Validators.Principals.{keep_allowed}
use secure_sshlinux_client.Validators.Options.{validate_source_address}
use secure_sshlinux_client.Validators.Options.{is_address_part}
use secure_sshlinux_client.Validators.Options.{contains_slash}
use secure_sshlinux_client.Validators.Options.{check_source_address}
use secure_sshlinux_client.Validators.Options.{check_address_parts}
use secure_sshlinux_client.Validators.Keys.{validate_ssh_public_key}
use secure_sshlinux_client.Validators.Keys.{validate_key_id}
use secure_sshlinux_client.Validators.Keys.{matches_key_id}
use secure_sshlinux_client.Validators.Keys.{is_key_id_char}
use secure_sshlinux_client.Validators.Keys.{check_key_parts}
use secure_sshlinux_client.Validators.Keys.{check_key_line}
use secure_sshlinux_client.Settings.{user_allowed_principal_list}
use secure_sshlinux_client.Settings.{token_map}
use secure_sshlinux_client.Settings.{drop_empty}
use secure_sshlinux_client.Routes.{sign_user_with}
use secure_sshlinux_client.Routes.{override_options}
use secure_sshlinux_client.Routes.{override_extensions}
use secure_sshlinux_client.Routes.{ext_override_of}
use secure_sshlinux_client.Routes.{crit_override_of}
use secure_sshlinux_client.Routes.{check_given_address}
use secure_sshlinux_client.Routes.{authorized}
use secure_sshlinux_client.Profiles.{resolve_profile}
use secure_sshlinux_client.Profiles.{check_role_profile_access}
use secure_sshlinux_client.Base.{words}
use secure_sshlinux_client.Base.{text_eq}
use secure_sshlinux_client.Base.{strip}
use secure_sshlinux_client.Base.{starts_with}
use secure_sshlinux_client.Base.{split_on}
use secure_sshlinux_client.Base.{contains}
use secure_sshlinux_client.Base.{append_new}
use secure_sshlinux_client.Auth.{token_of_header}
use secure_sshlinux_client.Auth.{require_user_sign_role}
use secure_sshlinux_client.Auth.{require_auth}
use secure_sshlinux_client.Auth.{find_role}
use secure_sshlinux_client.Auth.{bearer_token}
use secure_sshlinux_client.Base.{◌≡◌, refl, true, false, none, some, [], ◌∷◌, codes}
use secure_sshlinux_client.Errors.{user, host, ok}
use secure_sshlinux_client.Profiles.{CertificatePermissions}
use secure_sshlinux_client.Auth.{AuthContext}
use secure_sshlinux_client.Store.{Row}
use secure_sshlinux_client.Signing.{SignArguments}
use secure_sshlinux_client.Schemas.{CallerInfo, SignUserRequest, SignHostRequest, SignResponse}
use secure_sshlinux_client.Routes.{
  Broker, user_arguments, host_arguments, audit_entry, sign_response, sign_user, sign_host,
  post_sign_user, post_sign_host,
}
use secure_sshlinux_client.Routes.Prepare.{
  IsUserGrant, IsHostGrant, user_arguments-IsUserGrant, host_arguments-IsHostGrant,
}
use secure_sshlinux_client.Routes.Audit.{
  IsUserAudit, IsHostAudit, sign_user_audited, sign_host_audited,
}
use secure_sshlinux_client.Routes.Authorized.{
  IsUserIssue, IsHostIssue, post_sign_user_sound, post_sign_host_sound,
}
use secure_sshlinux_client.Tests.Data.{lib, settings, world, failing_world, key_hash}

abbrev requester : CallerInfo
requester = record { requester = codes "ann"; source_ip = none; reason = none }

abbrev user_request : SignUserRequest
user_request = record {
  public_key = codes "ssh-rsa QUJDREVGR0hJSktMTU5PUFFSU1RV";
  key_id = codes "k1";
  requested_principals = some (codes "root" ∷ []);
  ttl = none;
  caller = requester;
  profile = none;
  permissions = some (record { extensions = none; critical_options = none });
  source_address = some (codes "10.0.0.7");
  force_command = none;
}

abbrev user_permissions : CertificatePermissions
user_permissions = record {
  extensions = codes "permit-pty" ∷ [];
  critical_options = (codes "source-address", codes "10.0.0.7") ∷ [];
}

abbrev user_args : SignArguments
user_args = record {
  cert_type = user;
  key_id = codes "k1";
  principals = codes "root" ∷ [];
  ttl = codes "8h";
  public_key = codes "ssh-rsa QUJDREVGR0hJSktMTU5PUFFSU1RV";
  permissions = some user_permissions;
}

abbrev developer : AuthContext
developer = record { role = codes "dev"; token_hint = codes "dev:tokdev" }

abbrev empty_broker : Broker
empty_broker = record { store = []; audit_log = [] }

user_checked :
    user_arguments lib settings user_request developer ≡ ok (user_args, codes "zf_production")
unfolding user_arguments validate_key_id matches_key_id is_key_id_char validate_ssh_public_key
    check_key_line words check_key_parts text_eq validate_user_principals keep_allowed
    requested_or_all user_allowed_principal_list nonempty_principals append_new normalize_ttl
    check_role_profile_access resolve_profile check_given_address crit_override_of ext_override_of
    override_extensions override_options check_address_parts check_source_address contains_slash
    is_address_part validate_source_address
user_checked = refl

user_arguments-IsUserGrant_example :
    IsUserGrant settings developer.role (codes "zf_production") user_args
user_arguments-IsUserGrant_example =
    user_arguments-IsUserGrant lib settings user_request developer user_args (codes "zf_production")
      user_checked

sign_user_audited_example :
    IsUserAudit key_hash failing_world settings lib user_request developer empty_broker
      (sign_user lib key_hash failing_world settings user_request developer empty_broker)
sign_user_audited_example =
    sign_user_audited key_hash failing_world settings lib user_request developer empty_broker

abbrev user_row : Row
user_row = record {
  cert_type = user;
  key_id = codes "k1";
  principals = codes "root";
  ttl = codes "8h";
  certificate = codes "CERT";
  created_at = codes "2024";
}

abbrev user_broker : Broker
user_broker = record {
  store = (codes "k1", user_row) ∷ [];
  audit_log =
      audit_entry developer user_args (codes "ann") (some (codes "zf_production")) true none ∷ [];
}

abbrev user_response : SignResponse
user_response = sign_response user_args (some (codes "zf_production")) (codes "CERT") false

user_signed :
    post_sign_user lib key_hash world settings
      (some (codes "bearer tokdev"))
      user_request
      empty_broker
    ≡ (ok user_response, user_broker)
unfolding post_sign_user user_arguments validate_key_id matches_key_id is_key_id_char
    validate_ssh_public_key check_key_line words check_key_parts text_eq validate_user_principals
    keep_allowed requested_or_all user_allowed_principal_list nonempty_principals append_new
    normalize_ttl check_role_profile_access resolve_profile check_given_address crit_override_of
    ext_override_of override_extensions override_options check_address_parts check_source_address
    contains_slash is_address_part validate_source_address authorized require_auth bearer_token
    token_of_header starts_with find_role token_map drop_empty require_user_sign_role sign_user
    sign_user_with finish sign_certificate store_certificate get put run_ssh_keygen
    certificate_of_run
user_signed = refl

post_sign_user_sound_example :
    IsUserIssue lib key_hash world settings
      (some (codes "bearer tokdev"))
      user_request
      empty_broker
      user_response
      user_broker
post_sign_user_sound_example =
    post_sign_user_sound lib key_hash world settings (some (codes "bearer tokdev")) user_request
      empty_broker user_broker user_response user_signed

abbrev host_request : SignHostRequest
host_request = record {
  public_key = codes "ssh-rsa QUJDREVGR0hJSktMTU5PUFFSU1RV";
  key_id = codes "h1";
  requested_principals = codes "Web.Example" ∷ codes "10.0.0.7" ∷ [];
  ttl = some (codes "1d");
  caller = requester;
}

abbrev host_args : SignArguments
host_args = record {
  cert_type = host;
  key_id = codes "h1";
  principals = codes "web.example" ∷ codes "10.0.0.7" ∷ [];
  ttl = codes "1d";
  public_key = codes "ssh-rsa QUJDREVGR0hJSktMTU5PUFFSU1RV";
  permissions = none;
}

abbrev server : AuthContext
server = record { role = codes "server"; token_hint = codes "server:tokser" }

host_checked : host_arguments lib settings host_request ≡ ok host_args
unfolding host_arguments validate_key_id matches_key_id is_key_id_char validate_ssh_public_key
    check_key_line words check_key_parts contains text_eq user_allowed_principal_list
    nonempty_principals append_new normalize_ttl validate_host_principals keep_hosts
    matches_hostname matches_label from_keys
host_checked = refl

host_arguments-IsHostGrant_example : IsHostGrant lib settings host_args
host_arguments-IsHostGrant_example =
    host_arguments-IsHostGrant lib settings host_request host_args host_checked

sign_host_audited_example :
    IsHostAudit key_hash failing_world settings lib host_request server empty_broker
      (sign_host lib key_hash failing_world settings host_request server empty_broker)
sign_host_audited_example =
    sign_host_audited key_hash failing_world settings lib host_request server empty_broker

abbrev host_row : Row
host_row = record {
  cert_type = host;
  key_id = codes "h1";
  principals = codes "web.example,10.0.0.7";
  ttl = codes "1d";
  certificate = codes "CERT";
  created_at = codes "2024";
}

abbrev host_broker : Broker
host_broker = record {
  store = (codes "h1", host_row) ∷ [];
  audit_log = audit_entry server host_args (codes "ann") none true none ∷ [];
}

abbrev host_response : SignResponse
host_response = sign_response host_args none (codes "CERT") false

host_signed :
    post_sign_host lib key_hash world settings
      (some (codes "Bearer tokserver"))
      host_request
      empty_broker
    ≡ (ok host_response, host_broker)
unfolding post_sign_host host_arguments validate_key_id matches_key_id is_key_id_char
    validate_ssh_public_key check_key_line words strip check_key_parts text_eq nonempty_principals
    append_new normalize_ttl split_on resolve_profile authorized require_auth bearer_token
    token_of_header starts_with find_role token_map drop_empty validate_host_principals keep_hosts
    matches_hostname matches_label from_keys require_host_sign_role sign_host sign_host_with finish
    sign_certificate store_certificate get put run_ssh_keygen certificate_of_run
host_signed = refl

post_sign_host_sound_example :
    IsHostIssue lib key_hash world settings
      (some (codes "Bearer tokserver"))
      host_request
      empty_broker
      host_response
      host_broker
post_sign_host_sound_example =
    post_sign_host_sound lib key_hash world settings (some (codes "Bearer tokserver")) host_request
      empty_broker host_broker host_response host_signed
