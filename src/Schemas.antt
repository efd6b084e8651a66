-- ===== src/Schemas.antt =====
-- The request and response models of app/models/schemas.py that the endpoints use. A request
-- is one that pydantic has accepted.
use secure_sshlinux_client.Base.{Bool, Option, List, Text, Dict, ℤ}
use secure_sshlinux_client.Errors.{CertType}

pub record CallerInfo : Type 0 where
  pub requester : Text
  pub source_ip : Option Text
  pub reason : Option Text

pub record CertPermissionOverrides : Type 0 where
  pub extensions : Option (List Text)
  pub critical_options : Option (Dict Text)

pub record SignUserRequest : Type 0 where
  pub public_key : Text
  pub key_id : Text
  pub requested_principals : Option (List Text)
  pub ttl : Option Text
  pub caller : CallerInfo
  pub profile : Option Text
  pub permissions : Option CertPermissionOverrides
  pub source_address : Option Text
  pub force_command : Option Text

pub record SignHostRequest : Type 0 where
  pub public_key : Text
  pub key_id : Text
  pub requested_principals : List Text
  pub ttl : Option Text
  pub caller : CallerInfo

pub record SignResponse : Type 0 where
  pub success : Bool
  pub cert_type : CertType
  pub key_id : Text
  pub principals : List Text
  pub ttl : Text
  pub certificate : Text
  pub idempotent_reused : Bool
  pub profile : Option Text

pub record VersionResponse : Type 0 where
  pub app_name : Text
  pub version : Text
  pub broker_bind : Text
  pub public_base_url : Text
  pub default_user_ttl_hours : ℤ
  pub max_user_ttl_hours : ℤ
  pub default_host_ttl_hours : ℤ
  pub max_host_ttl_hours : ℤ
  pub allowed_user_principals : List Text
  pub default_user_profile : Text

-- The clock's text; the status is always "ok".
pub record HealthResponse : Type 0 where
  pub timestamp : Text

pub record PubKeyResponse : Type 0 where
  pub key_type : CertType
  pub public_key : Text

pub record UiBootstrapResponse : Type 0 where
  pub app_name : Text
  pub version : Text
  pub broker_bind : Text
  pub public_base_url : Text
  pub allowed_user_principals : List Text
  pub default_user_ttl_hours : ℤ
  pub max_user_ttl_hours : ℤ
  pub default_host_ttl_hours : ℤ
  pub max_host_ttl_hours : ℤ
  pub default_user_profile : Text
  pub available_profiles : List Text
  pub user_ca_pubkey_endpoint : Text
  pub host_ca_pubkey_endpoint : Text
  pub sign_user_endpoint : Text
  pub sign_host_endpoint : Text
  pub inspect_cert_endpoint : Text
  pub example_caller : CallerInfo

pub record InspectCertRequest : Type 0 where
  pub certificate : Text

pub record DemoPublicKeyResponse : Type 0 where
  pub key_type : CertType
  pub public_key : Text
  pub comment : Text
