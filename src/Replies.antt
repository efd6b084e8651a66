-- ===== src/Replies.antt =====
-- The replies of the endpoints of app/api/routes.py, and the handlers of exceptions.
use secure_sshlinux_client.Base.{ℕ, false, Text, codes}
use secure_sshlinux_client.Errors.{
  ErrorCode, auth_required, auth_invalid, auth_forbidden, key_id_invalid, public_key_invalid,
  ttl_invalid, ttl_too_large, principal_not_allowed, principal_required, principal_invalid,
  extension_unknown, critical_option_unknown, critical_option_invalid, profile_unknown,
  profile_forbidden, ssh_keygen_not_found, signing_failed, certificate_missing, cert_parse_failed,
  demo_keygen_failed, Details, absent, null, stderr, HttpException, Exception, http_exception,
  value_error, overflow_error, key_error, os_error, Result, ok, raised,
}
use secure_sshlinux_client.Json.{Json, boolean, string, object, Members, end_members, member}
use secure_sshlinux_client.Inspection.{InspectCertResponse}
use secure_sshlinux_client.Schemas.{
  SignResponse, VersionResponse, HealthResponse, PubKeyResponse, UiBootstrapResponse,
  DemoPublicKeyResponse,
}

unfoldable pub error_text : ErrorCode → Text
error_text auth_required = codes "AUTH_REQUIRED"
error_text auth_invalid = codes "AUTH_INVALID"
error_text auth_forbidden = codes "AUTH_FORBIDDEN"
error_text key_id_invalid = codes "KEY_ID_INVALID"
error_text public_key_invalid = codes "PUBLIC_KEY_INVALID"
error_text ttl_invalid = codes "TTL_INVALID"
error_text ttl_too_large = codes "TTL_TOO_LARGE"
error_text principal_not_allowed = codes "PRINCIPAL_NOT_ALLOWED"
error_text principal_required = codes "PRINCIPAL_REQUIRED"
error_text principal_invalid = codes "PRINCIPAL_INVALID"
error_text extension_unknown = codes "EXTENSION_UNKNOWN"
error_text critical_option_unknown = codes "CRITICAL_OPTION_UNKNOWN"
error_text critical_option_invalid = codes "CRITICAL_OPTION_INVALID"
error_text profile_unknown = codes "PROFILE_UNKNOWN"
error_text profile_forbidden = codes "PROFILE_FORBIDDEN"
error_text ssh_keygen_not_found = codes "SSH_KEYGEN_NOT_FOUND"
error_text signing_failed = codes "SIGNING_FAILED"
error_text certificate_missing = codes "CERTIFICATE_MISSING"
error_text cert_parse_failed = codes "CERT_PARSE_FAILED"
error_text demo_keygen_failed = codes "DEMO_KEYGEN_FAILED"

unfoldable pub details_members : Details → Members
details_members absent = end_members
details_members null = member (codes "details") Json.null end_members
details_members (stderr text) =
    member (codes "details") (object (member (codes "stderr") (string text) end_members))
      end_members

-- A reply. The bodies of the successful ones are the response models, which the framework prints.
pub data Body : Type 0 where
  health : HealthResponse → Body
  version : VersionResponse → Body
  bootstrap : UiBootstrapResponse → Body
  pubkey : PubKeyResponse → Body
  demo : DemoPublicKeyResponse → Body
  signed : SignResponse → Body
  inspected : InspectCertResponse → Body
  failure : Json → Body

pub record Response : Type 0 where
  pub status_code : ℕ
  pub body : Body

-- `http_exception_handler`: `{"success": False, **detail}`.
unfoldable pub http_exception_handler : HttpException → Response
http_exception_handler e = record {
  status_code = e.status_code;
  body = failure (
      object (
        member (codes "success") (boolean false) (
          member (codes "error_code") (string (error_text e.error_code))
            (member (codes "message") (string e.message) (details_members e.details)))));
}

-- `generic_exception_handler`
abbrev pub generic_exception_handler : Response
generic_exception_handler = record {
  status_code = 500;
  body = failure (
      object (
        member (codes "success") (boolean false) (
          member (codes "error_code") (string (codes "INTERNAL_ERROR"))
            (member (codes "message") (string (codes "Unexpected server error")) end_members))));
}

unfoldable pub error_response : Exception → Response
error_response (http_exception e) = http_exception_handler e
error_response value_error = generic_exception_handler
error_response overflow_error = generic_exception_handler
error_response key_error = generic_exception_handler
error_response os_error = generic_exception_handler

unfoldable pub reply {ℓ} : {A : Type ℓ} → (A → Body) → Result A → Response
reply body (ok a) = record { status_code = 200; body = body a }
reply body (raised e) = error_response e
