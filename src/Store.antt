-- ===== src/Store.antt =====
-- app/services/idempotency.py: the table of signed requests, keyed by the hash of the request.
use secure_sshlinux_client.Base.{Option, List, Text, codes, join, Dict, dict_get, dict_set}
use secure_sshlinux_client.Errors.{CertType}

-- A row of `sign_requests`, besides its primary key `request_hash`.
pub record Row : Type 0 where
  pub cert_type : CertType
  pub key_id : Text
  pub principals : Text
  pub ttl : Text
  pub certificate : Text
  pub created_at : Text

-- The table, by its primary key.
abbrev pub IdempotencyStore : Type 0
IdempotencyStore = Dict Row

-- What `build_hash` is given; its `json.dumps` and `sha256` are an argument of the operations.
pub record HashPayload : Type 0 where
  pub cert_type : CertType
  pub key_id : Text
  pub principals : List Text
  pub ttl : Text
  pub public_key : Text
  pub extensions : List Text
  pub critical_options : Dict Text

unfoldable pub get : IdempotencyStore → Text → Option Row
get store request_hash = dict_get store request_hash

-- `INSERT OR REPLACE`
unfoldable pub put :
    (request_hash : Text) (cert_type : CertType) (key_id : Text) (principals : List Text)
    (ttl certificate created_at : Text)
    → IdempotencyStore
    → IdempotencyStore
put request_hash cert_type key_id principals ttl certificate created_at store =
    dict_set store request_hash (record {
      cert_type = cert_type;
      key_id = key_id;
      principals = join (codes ",") principals;
      ttl = ttl;
      certificate = certificate;
      created_at = created_at;
    })
