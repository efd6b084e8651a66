-- ===== src/Settings.antt =====
-- `Settings` of app/config.py: the fields that the broker's decisions depend on, the list of
-- allowed principals and the map from roles to tokens.
use secure_sshlinux_client.Base.{
  List, [], ◌∷◌, Text, codes, Dict, ℤ, is_empty, split_on, strip, if◌then◌else◌,
}

pub record Settings : Type 0 where
  pub app_name : Text
  pub app_version : Text
  pub host : Text
  pub port : ℤ
  pub broker_public_base_url : Text
  pub log_level : Text
  pub audit_log_path : Text
  pub idempotency_db_path : Text
  pub temp_dir : Text
  pub user_ca_private_key : Text
  pub user_ca_public_key : Text
  pub user_ca_key_passphrase : Text
  pub host_ca_private_key : Text
  pub host_ca_public_key : Text
  pub host_ca_key_passphrase : Text
  pub user_allowed_principals : Text
  pub user_default_ttl_hours : ℤ
  pub user_max_ttl_hours : ℤ
  pub host_default_ttl_hours : ℤ
  pub host_max_ttl_hours : ℤ
  pub token_dev : Text
  pub token_prod : Text
  pub token_claims : Text
  pub token_oemprod : Text
  pub token_server : Text
  pub token_admin : Text
  pub default_user_profile : Text

-- `[item.strip() for item in items if item.strip()]`
unfoldable pub strip_items : List Text → List Text
unfolding strip
strip_items [] = []
strip_items (item ∷ items) =
    if is_empty (strip item) then strip_items items else strip item ∷ strip_items items

unfoldable pub user_allowed_principal_list : Settings → List Text
unfolding strip_items split_on
user_allowed_principal_list s = strip_items (split_on b',' s.user_allowed_principals)

-- `{role: token for role, token in values.items() if token}`
unfoldable pub drop_empty : Dict Text → Dict Text
drop_empty [] = []
drop_empty ((role, token) ∷ values) =
    if is_empty token then drop_empty values else (role, token) ∷ drop_empty values

-- The token that the settings give to each role, empty where none is configured.
abbrev pub role_tokens : Settings → Dict Text
role_tokens s =
    (codes "dev", s.token_dev)
    ∷ (codes "prod", s.token_prod)
    ∷ (codes "claims", s.token_claims)
    ∷ (codes "OEMprod", s.token_oemprod)
    ∷ (codes "server", s.token_server)
    ∷ (codes "admin", s.token_admin)
    ∷ []

unfoldable pub token_map : Settings → Dict Text
token_map s = drop_empty (role_tokens s)
