-- ===== src/Tests/Data.antt =====
-- A configuration, parsers and a world for the examples.
use secure_sshlinux_client.Base.{
  true, false, ◌||◌, none, some, [], ◌∷◌, leb, ◌&&◌, Text, codes, text_eq, pos,
}
use secure_sshlinux_client.Environment.{Library}
use secure_sshlinux_client.Errors.{user}
use secure_sshlinux_client.Settings.{Settings}
use secure_sshlinux_client.Store.{HashPayload}
use secure_sshlinux_client.Signing.{exited, World, SignArguments}

-- These stand for the parsers of Python's library in the examples only.
abbrev pub lib : Library
lib = record {
  is_ip_address = λ s. text_eq s (codes "10.0.0.7") || text_eq s (codes "fe80::1");
  is_ip_network = λ s. text_eq s (codes "10.0.0.0/8");
  is_base64 = λ s. text_eq s (codes "QUJDREVGR0hJSktMTU5PUFFSU1RV");
  urlparse = λ s. some (record { scheme = codes "https"; netloc = s; hostname = some s });
  is_digit = λ c. leb b'0' c && leb c b'9';
}

abbrev pub settings : Settings
settings = record {
  app_name = codes "broker";
  app_version = codes "1";
  host = codes "0.0.0.0";
  port = pos 8000;
  broker_public_base_url = codes "https://broker";
  log_level = codes "INFO";
  audit_log_path = codes "/a";
  idempotency_db_path = codes "/d";
  temp_dir = codes "/tmp";
  user_ca_private_key = codes "/ca/user";
  user_ca_public_key = codes "/ca/user.pub";
  user_ca_key_passphrase = codes "";
  host_ca_private_key = codes "/ca/host";
  host_ca_public_key = codes "/ca/host.pub";
  host_ca_key_passphrase = codes "pw";
  user_allowed_principals = codes "root, lc:eol";
  user_default_ttl_hours = pos 8;
  user_max_ttl_hours = pos 24;
  host_default_ttl_hours = pos 24;
  host_max_ttl_hours = pos 48;
  token_dev = codes "tokdev";
  token_prod = codes "";
  token_claims = codes "";
  token_oemprod = codes " tok";
  token_server = codes "tokserver";
  token_admin = codes "tokadmin";
  default_user_profile = codes "zf_production";
}

-- ssh-keygen writes a certificate.
abbrev pub world : World
world = record {
  serial = 7;
  temp_dir = codes "/tmp/x";
  now = codes "2024";
  run = λ command key environment. exited true [] (some (codes "CERT"));
}

-- ssh-keygen fails.
abbrev pub failing_world : World
failing_world = record world { run = λ command key environment. exited false (codes "bad") none }

abbrev pub key_hash : HashPayload → Text
key_hash payload = payload.key_id

abbrev pub args : SignArguments
args = record {
  cert_type = user;
  key_id = codes "k1";
  principals = codes "root" ∷ [];
  ttl = codes "8h";
  public_key = codes "ssh-rsa QUJDREVGR0hJSktMTU5PUFFSU1RV";
  permissions = none;
}
