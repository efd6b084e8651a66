-- ===== src/Endpoints.antt =====
-- All endpoints of app/api/routes.py but the page `/ui`: from a call to the status and the body of its
-- reply.
pub mod Refused
use secure_sshlinux_client.Base.{
  ℕ, Bool, true, false, Option, none, some, List, [], ◌∷◌, ◌++◌, Text, codes, strip, sorted, show_ℤ,
}
use secure_sshlinux_client.Environment.{Library}
use secure_sshlinux_client.Errors.{
  CertType, user, host, ErrorCode, auth_required, auth_invalid, auth_forbidden, key_id_invalid,
  public_key_invalid, ttl_invalid, ttl_too_large, principal_not_allowed, principal_required,
  principal_invalid, extension_unknown, critical_option_unknown, critical_option_invalid,
  profile_unknown, profile_forbidden, ssh_keygen_not_found, signing_failed, certificate_missing,
  cert_parse_failed, demo_keygen_failed, Details, absent, null, stderr, HttpException, Exception,
  http_exception, value_error, overflow_error, key_error, os_error, Result, ok, raised, ◌>>=◌, ◌>>◌,
}
use secure_sshlinux_client.Json.{Json, boolean, string, object, Members, end_members, member}
use secure_sshlinux_client.Settings.{Settings, user_allowed_principal_list}
use secure_sshlinux_client.Profiles.{profile_names}
use secure_sshlinux_client.Auth.{require_auth}
use secure_sshlinux_client.Store.{HashPayload}
use secure_sshlinux_client.Signing.{World, KeygenRun}
use secure_sshlinux_client.Signing.Demo.{generate_demo_public_key, generate_demo_host_public_key}
use secure_sshlinux_client.Inspection.{CommandRun, InspectCertResponse, inspect_certificate}
use secure_sshlinux_client.Schemas.{
  CallerInfo, SignUserRequest, SignHostRequest, SignResponse, VersionResponse, HealthResponse,
  PubKeyResponse, UiBootstrapResponse, InspectCertRequest, DemoPublicKeyResponse,
}
use secure_sshlinux_client.Routes.{Broker, post_sign_user, post_sign_host}
use secure_sshlinux_client.Replies.{
  Body, health, version, bootstrap, pubkey, demo, signed, inspected, failure, Response, error_text,
  details_members, http_exception_handler, generic_exception_handler, error_response, reply,
}

-- What an endpoint finds outside the program: the clock, the files, and ssh-keygen where it makes a
-- demo key or lists a certificate.
pub record Surroundings : Type 0 where
  pub now : Text
  pub read_text : Text → Option Text
  pub demo_keygen : List Text → KeygenRun
  pub demo_dir : Text
  pub list_file : Text → CommandRun

-- `f"{settings.host}:{settings.port}"`
unfoldable pub broker_bind : Settings → Text
broker_bind settings = settings.host ++ (codes ":" ++ show_ℤ settings.port)

abbrev pub version_response : Settings → VersionResponse
version_response settings = record {
  app_name = settings.app_name;
  version = settings.app_version;
  broker_bind = broker_bind settings;
  public_base_url = settings.broker_public_base_url;
  default_user_ttl_hours = settings.user_default_ttl_hours;
  max_user_ttl_hours = settings.user_max_ttl_hours;
  default_host_ttl_hours = settings.host_default_ttl_hours;
  max_host_ttl_hours = settings.host_max_ttl_hours;
  allowed_user_principals = user_allowed_principal_list settings;
  default_user_profile = settings.default_user_profile;
}

abbrev pub example_caller : CallerInfo
example_caller = record {
  requester = codes "manual-ui";
  source_ip = none;
  reason = some (codes "manual workflow step");
}

abbrev pub bootstrap_response : Settings → UiBootstrapResponse
bootstrap_response settings = record {
  app_name = settings.app_name;
  version = settings.app_version;
  broker_bind = broker_bind settings;
  public_base_url = settings.broker_public_base_url;
  allowed_user_principals = user_allowed_principal_list settings;
  default_user_ttl_hours = settings.user_default_ttl_hours;
  max_user_ttl_hours = settings.user_max_ttl_hours;
  default_host_ttl_hours = settings.host_default_ttl_hours;
  max_host_ttl_hours = settings.host_max_ttl_hours;
  default_user_profile = settings.default_user_profile;
  available_profiles = sorted profile_names;
  user_ca_pubkey_endpoint = codes "/v1/ca/user/pubkey";
  host_ca_pubkey_endpoint = codes "/v1/ca/host/pubkey";
  sign_user_endpoint = codes "/v1/sign/user";
  sign_host_endpoint = codes "/v1/sign/host";
  inspect_cert_endpoint = codes "/v1/ui/inspect-cert";
  example_caller = example_caller;
}

unfoldable pub pubkey_of_file : CertType → Option Text → Result PubKeyResponse
pubkey_of_file key_type none = raised os_error
pubkey_of_file key_type (some text) = ok (record { key_type = key_type; public_key = strip text })

unfoldable pub user_ca_pubkey : Surroundings → Settings → Result PubKeyResponse
user_ca_pubkey around settings = pubkey_of_file user (around.read_text settings.user_ca_public_key)

unfoldable pub host_ca_pubkey : Surroundings → Settings → Result PubKeyResponse
host_ca_pubkey around settings = pubkey_of_file host (around.read_text settings.host_ca_public_key)

-- The endpoints, with the payload that the framework has parsed.
pub data Call : Type 0 where
  healthz get_version get_bootstrap get_user_ca get_host_ca demo_user demo_host : Call
  sign_user_call : SignUserRequest → Call
  sign_host_call : SignHostRequest → Call
  inspect_call : InspectCertRequest → Call

abbrev pub with_broker {ℓ} : {A : Type ℓ} → (A → Body) → Result A × Broker → Response × Broker
with_broker body (result, broker) = (reply body result, broker)

module _ (lib : Library) (build_hash : HashPayload → Text) (world : World) (around : Surroundings)
    (settings : Settings) where
  -- The dispatch: each endpoint behind its dependency on the Authorization header.
  unfoldable pub respond : Option Text → Call → Broker → Response × Broker
  respond authorization healthz broker =
      (reply health (ok (record { timestamp = around.now })), broker)
  respond authorization get_version broker = (
    reply version (do require_auth authorization settings; ok (version_response settings)),
    broker,
  )
  respond authorization get_bootstrap broker = (
    reply bootstrap (do require_auth authorization settings; ok (bootstrap_response settings)),
    broker,
  )
  respond authorization get_user_ca broker = (
    reply pubkey (do require_auth authorization settings; user_ca_pubkey around settings),
    broker,
  )
  respond authorization get_host_ca broker = (
    reply pubkey (do require_auth authorization settings; host_ca_pubkey around settings),
    broker,
  )
  respond authorization demo_user broker = (
    reply demo (do
      require_auth authorization settings
      generate_demo_public_key around.demo_keygen around.demo_dir (codes "demo-ui-user")),
    broker,
  )
  respond authorization demo_host broker = (
    reply demo (do
      require_auth authorization settings
      generate_demo_host_public_key around.demo_keygen around.demo_dir (codes "demo-ui-host")),
    broker,
  )
  respond authorization (sign_user_call payload) broker =
      with_broker signed (post_sign_user lib build_hash world settings authorization payload broker)
  respond authorization (sign_host_call payload) broker =
      with_broker signed (post_sign_host lib build_hash world settings authorization payload broker)
  respond authorization (inspect_call payload) broker = (
    reply inspected (do
      require_auth authorization settings
      inspect_certificate around.list_file payload.certificate),
    broker,
  )
