-- ===== src/Routes.antt =====
-- The signing endpoints of app/api/routes.py: the order of the checks, the call of the signing
-- service, and the audit log.
pub mod Prepare
pub mod Audit
pub mod Authorized
use secure_sshlinux_client.Base.{
  Bool, true, false, Option, none, some, List, [], ◌∷◌, ◌++◌, if◌then◌else◌, Text, codes, Dict,
}
use secure_sshlinux_client.Environment.{Library}
use secure_sshlinux_client.Errors.{
  CertType, user, host, ErrorCode, Result, ok, raised, ◌>>=◌, ◌>>◌, HttpException, http_exception,
  Exception, value_error, overflow_error, key_error, os_error,
}
use secure_sshlinux_client.Settings.{Settings}
use secure_sshlinux_client.Profiles.{
  CertificatePermissions, or_else, resolve_profile, check_role_profile_access,
}
use secure_sshlinux_client.Validators.Keys.{validate_key_id, validate_ssh_public_key}
use secure_sshlinux_client.Validators.Ttl.{normalize_ttl}
use secure_sshlinux_client.Validators.Principals.{
  validate_user_principals, validate_host_principals,
}
use secure_sshlinux_client.Validators.Options.{
  validate_extensions, validate_critical_options, validate_source_address,
}
use secure_sshlinux_client.Auth.{
  AuthContext, require_auth, require_user_sign_role, require_host_sign_role,
}
use secure_sshlinux_client.Store.{IdempotencyStore, HashPayload}
use secure_sshlinux_client.Signing.{World, SignArguments, sign_certificate}
use secure_sshlinux_client.Schemas.{
  CertPermissionOverrides, SignUserRequest, SignHostRequest, SignResponse,
}

-- One line of the audit log; the address of the client is left out.
pub record AuditEntry : Type 0 where
  pub action : Text
  pub auth_role : Text
  pub token_hint : Text
  pub caller : Text
  pub key_id : Text
  pub principals : List Text
  pub profile : Option Text
  pub succeeded : Bool
  pub error_code : Option ErrorCode

-- What the endpoints change: the table of signed requests and the audit log, newest line last.
pub record Broker : Type 0 where
  pub store : IdempotencyStore
  pub audit_log : List AuditEntry

-- `if payload.permissions.extensions: ext_override = validate_extensions(...)`
unfoldable pub override_extensions : Option (List Text) → Result (Option (List Text))
override_extensions none = ok none
override_extensions (some []) = ok none
override_extensions (some (e ∷ es)) = do exts ← validate_extensions (e ∷ es); ok (some exts)

-- `if payload.permissions: ...`
unfoldable pub ext_override_of : Option CertPermissionOverrides → Result (Option (List Text))
ext_override_of none = ok none
ext_override_of (some p) = override_extensions p.extensions

module _ (lib : Library) where
  unfoldable pub override_options : Option (Dict Text) → Result (Option (Dict Text))
  override_options none = ok none
  override_options (some []) = ok none
  override_options (some (o ∷ os)) = do
    options ← validate_critical_options lib (o ∷ os)
    ok (some options)

  unfoldable pub crit_override_of : Option CertPermissionOverrides → Result (Option (Dict Text))
  crit_override_of none = ok none
  crit_override_of (some p) = override_options p.critical_options

  -- `if payload.source_address: validate_source_address(payload.source_address)`
  unfoldable pub check_given_address : Option Text → Result (Unit {0})
  check_given_address none = ok tt
  check_given_address (some []) = ok tt
  check_given_address (some (c ∷ s)) = do validate_source_address lib (c ∷ s); ok tt

  -- The checks of `sign_user`, in their order: the arguments of the signing service and the name of the
  -- profile.
  unfoldable pub user_arguments :
      Settings → SignUserRequest → AuthContext → Result (SignArguments × Text)
  user_arguments settings payload auth = do
    validate_key_id payload.key_id
    public_key ← validate_ssh_public_key lib payload.public_key
    principals ← validate_user_principals payload.requested_principals settings
    ttl ← normalize_ttl payload.ttl settings.user_default_ttl_hours settings.user_max_ttl_hours user
    let profile_name = or_else payload.profile settings.default_user_profile
    ext_override ← ext_override_of payload.permissions
    crit_override ← crit_override_of payload.permissions
    check_given_address payload.source_address
    permissions ←
        resolve_profile (some profile_name) settings.default_user_profile ext_override crit_override
          payload.source_address payload.force_command
    check_role_profile_access auth.role profile_name
    ok (
      record {
        cert_type = user;
        key_id = payload.key_id;
        principals = principals;
        ttl = ttl;
        public_key = public_key;
        permissions = some permissions;
      },
      profile_name,
    )

  -- The checks of `sign_host`.
  unfoldable pub host_arguments : Settings → SignHostRequest → Result SignArguments
  host_arguments settings payload = do
    validate_key_id payload.key_id
    public_key ← validate_ssh_public_key lib payload.public_key
    principals ← validate_host_principals lib payload.requested_principals
    ttl ← normalize_ttl payload.ttl settings.host_default_ttl_hours settings.host_max_ttl_hours host
    ok (record {
      cert_type = host;
      key_id = payload.key_id;
      principals = principals;
      ttl = ttl;
      public_key = public_key;
      permissions = none;
    })

abbrev pub action_of : CertType → Text
action_of user = codes "sign_user"
action_of host = codes "sign_host"

abbrev pub audit_entry :
    AuthContext → SignArguments → Text → Option Text → Bool → Option ErrorCode → AuditEntry
audit_entry auth args requester profile succeeded error_code = record {
  action = action_of args.cert_type;
  auth_role = auth.role;
  token_hint = auth.token_hint;
  caller = requester;
  key_id = args.key_id;
  principals = args.principals;
  profile = profile;
  succeeded = succeeded;
  error_code = error_code;
}

abbrev pub sign_response : SignArguments → Option Text → Text → Bool → SignResponse
sign_response args profile certificate reused = record {
  success = true;
  cert_type = args.cert_type;
  key_id = args.key_id;
  principals = args.principals;
  ttl = args.ttl;
  certificate = certificate;
  idempotent_reused = reused;
  profile = profile;
}

-- What both endpoints do with the outcome of `sign_certificate`: one line in the audit log, with the
-- error code where an `HTTPException` was raised, and the response. Other exceptions pass unlogged.
unfoldable pub finish :
    AuthContext
    → SignArguments
    → Text
    → Option Text
    → List AuditEntry
    → Result (Text × Bool) × IdempotencyStore
    → Result SignResponse × Broker
finish auth args requester profile log (ok (certificate, reused), store) = (
  ok (sign_response args profile certificate reused),
  record {
    store = store;
    audit_log = log ++ audit_entry auth args requester profile true none ∷ [];
  },
)
finish auth args requester profile log (raised (http_exception e), store) = (
  raised (http_exception e),
  record {
    store = store;
    audit_log = log ++ audit_entry auth args requester profile false (some e.error_code) ∷ [];
  },
)
finish auth args requester profile log (raised value_error, store) =
    (raised value_error, record { store = store; audit_log = log })
finish auth args requester profile log (raised overflow_error, store) =
    (raised overflow_error, record { store = store; audit_log = log })
finish auth args requester profile log (raised os_error, store) =
    (raised os_error, record { store = store; audit_log = log })
finish auth args requester profile log (raised key_error, store) =
    (raised key_error, record { store = store; audit_log = log })

-- The dependency of an endpoint, then its body.
unfoldable pub authorized :
    Result AuthContext
    → (AuthContext → Broker → Result SignResponse × Broker)
    → Broker
    → Result SignResponse × Broker
authorized (raised e) body broker = (raised e, broker)
authorized (ok auth) body broker = body auth broker

module _ (lib : Library) (build_hash : HashPayload → Text) (world : World)
    (settings : Settings) where
  unfoldable pub sign_user_with :
      SignUserRequest
      → AuthContext
      → Broker
      → Result (SignArguments × Text)
      → Result SignResponse × Broker
  sign_user_with payload auth broker (raised e) = (raised e, broker)
  sign_user_with payload auth broker (ok (args, profile_name)) =
      finish auth args payload.caller.requester (some profile_name) broker.audit_log
        (sign_certificate build_hash world settings args broker.store)

  -- The body of the endpoint `/v1/sign/user`.
  unfoldable pub sign_user : SignUserRequest → AuthContext → Broker → Result SignResponse × Broker
  sign_user payload auth broker =
      sign_user_with payload auth broker (user_arguments lib settings payload auth)

  unfoldable pub sign_host_with :
      SignHostRequest → AuthContext → Broker → Result SignArguments → Result SignResponse × Broker
  sign_host_with payload auth broker (raised e) = (raised e, broker)
  sign_host_with payload auth broker (ok args) =
      finish auth args payload.caller.requester none broker.audit_log
        (sign_certificate build_hash world settings args broker.store)

  -- The body of the endpoint `/v1/sign/host`.
  unfoldable pub sign_host : SignHostRequest → AuthContext → Broker → Result SignResponse × Broker
  sign_host payload auth broker =
      sign_host_with payload auth broker (host_arguments lib settings payload)

  unfoldable pub post_sign_user :
      Option Text → SignUserRequest → Broker → Result SignResponse × Broker
  post_sign_user authorization payload broker =
      authorized (do auth ← require_auth authorization settings; require_user_sign_role auth)
        (sign_user payload) broker

  unfoldable pub post_sign_host :
      Option Text → SignHostRequest → Broker → Result SignResponse × Broker
  post_sign_host authorization payload broker =
      authorized (do auth ← require_auth authorization settings; require_host_sign_role auth)
        (sign_host payload) broker
