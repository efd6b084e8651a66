-- ===== src/Client/Broker.antt =====
-- `BrokerClient` of src/zfcssh_client/broker.py.
pub mod Bounds
pub mod Answered
use secure_sshlinux_client.Base.{
  ℕ, suc, Bool, true, false, Option, none, some, List, [], ◌∷◌, ◌++◌, if◌then◌else◌, is_empty, ltb,
  length, take, Text, codes, strip, show_ℕ, Dict,
}
use secure_sshlinux_client.Json.{
  Json, null, boolean, number, string, array, object, Members, end_members, member, get_member,
  strings, optional,
}
use secure_sshlinux_client.Client.Errors.{
  Answer, failed, returned, broker_error, unicode_error, connection_error,
}
use secure_sshlinux_client.Client.Files.{Files, is_file}
use secure_sshlinux_client.Client.Lifetimes.{default_ttl_for_profile}
use secure_sshlinux_client.Client.Bundle.{InstalledBundle}
use secure_sshlinux_client.Client.Machine.{Machine, Action, ◌>>=◌, ◌>>◌, lift, reading}

-- What the connection is opened with: the files of the certificate, of its key, and of a certificate
-- authority besides the system's. The protocol is TLS 1.2 or later.
pub record SslContext : Type 0 where
  pub certfile : Text
  pub keyfile : Text
  pub cafile : Option Text

pub record HttpRequest : Type 0 where
  pub context : SslContext
  pub method : Text
  pub url : Text
  pub headers : Dict Text
  pub body : Option Text

-- How `opener.open` and the reading of the reply end: `HTTPError`, with the code and the bytes that
-- can be read, `URLError`, another `OSError` while the bytes are read, or the bytes.
pub data HttpReply : Type 0 where
  http_error : (code : ℕ) (bytes : List ℕ) → HttpReply
  unreachable : (reason : Text) → HttpReply
  broken : HttpReply
  received : (bytes : List ℕ) → HttpReply

-- The library that the class calls. `decode` is strict, `decode_replace` is not.
pub record Network (S : Type 0) : Type 0 where
  pub exchange : HttpRequest → S → HttpReply × S
  pub check_context : SslContext → Files → Answer (Unit {0})
  pub urljoin : Text → Text → Text
  pub dumps : Json → Text
  pub loads : Text → Option Json
  pub decode : List ℕ → Option Text
  pub decode_replace : List ℕ → Text

-- `text or default`
unfoldable pub text_or : Option Text → Text → Text
text_or none default = default
text_or (some []) default = default
text_or (some (c ∷ s)) default = c ∷ s

-- `ttl or default_ttl_for_profile(profile)`
unfoldable pub ttl_or : Option Text → Text → Option Text
ttl_or none profile = default_ttl_for_profile profile
ttl_or (some []) profile = default_ttl_for_profile profile
ttl_or (some (c ∷ s)) profile = some (c ∷ s)

unfoldable pub existing_ca : Files → Option Text → Option Text
existing_ca files none = none
existing_ca files (some path) = if is_file files path then some path else none

unfoldable pub ssl_context : InstalledBundle → Files → SslContext
ssl_context bundle files = record {
  certfile = bundle.mtls.client_certificate_path;
  keyfile = bundle.mtls.client_key_path;
  cafile = existing_ca files bundle.mtls.ca_certificate_path;
}

abbrev pub max_bytes : ℕ
max_bytes = 65536

-- The headers of a request with this payload.
unfoldable pub headers_of : Option Json → Dict Text
headers_of none = (codes "Accept", codes "application/json") ∷ []
headers_of (some payload) =
    (codes "Accept", codes "application/json")
    ∷ (codes "Content-Type", codes "application/json")
    ∷ []

-- `json.dumps(payload)`, which is ASCII.
unfoldable pub body_of : (Json → Text) → Option Json → Option Text
body_of dumps none = none
body_of dumps (some payload) = some (dumps payload)

unfoldable pub object_of : Option Json → Answer Members
object_of none = failed (broker_error (codes "Broker response was not valid JSON"))
object_of (some (object members)) = returned members
object_of (some _) = failed (broker_error (codes "Broker response was not a JSON object"))

-- `response.get(key)`, a text that is not blank.
unfoldable pub nonblank_text : Text → Json → Answer Text
nonblank_text message (string s) =
    if is_empty (strip s) then failed (broker_error message) else returned (strip s)
nonblank_text message _ = failed (broker_error message)

unfoldable pub request_payload :
    InstalledBundle → Text → Text → List Text → Text → Option Text → Json
request_payload bundle public_key key_id principals profile ttl = object (
    member (codes "public_key") (string public_key) (
      member (codes "key_id") (string key_id) (
        member (codes "requested_principals") (array (strings principals)) (
          member (codes "profile") (string profile) (
            member (codes "caller")
              (object (
                member (codes "requester") (string bundle.requester) (
                  member (codes "reason")
                    (string
                      (text_or bundle.reason (codes "linux pc endpoint certificate enrollment")))
                    end_members)))
              (member (codes "ttl") (optional (ttl_or ttl profile)) end_members))))))

module _ {S : Type 0} (network : Network S) where
  unfoldable pub decoded : Option Text → Answer Members
  decoded none = failed unicode_error
  decoded (some text) = object_of (network.loads text)

  -- What was read of at most one byte more than the limit.
  unfoldable pub within_limit : List ℕ → Answer Members
  within_limit bytes =
      if ltb max_bytes (length bytes)
      then failed (broker_error (codes "Broker response exceeded maximum allowed size"))
      else decoded (network.decode bytes)

  unfoldable pub read_reply : HttpReply → Answer Members
  read_reply (http_error code bytes) = failed (
      broker_error (
        codes "Broker request failed with HTTP "
        ++ (show_ℕ code ++ (codes ": " ++ network.decode_replace (take max_bytes bytes)))))
  read_reply (unreachable reason) =
      failed (broker_error (codes "Broker request failed: " ++ reason))
  read_reply broken = failed connection_error
  read_reply (received bytes) = within_limit (take (suc max_bytes) bytes)

  abbrev pub served : Machine S → HttpReply × S → HttpReply × Machine S
  served m (answer, server) = (answer, record m { server = server })

  unfoldable pub send : HttpRequest → Machine S → HttpReply × Machine S
  send request m = served m (network.exchange request m.server)

  abbrev pub then_read : HttpReply × Machine S → Answer Members × Machine S
  then_read (answer, m) = (read_reply answer, m)

  -- `_request_json`
  unfoldable pub request_json :
      InstalledBundle → SslContext → Text → Text → Option Json → Action S Members
  request_json bundle context method path payload m = then_read (
      send
        (record {
          context = context;
          method = method;
          url = network.urljoin bundle.broker_url path;
          headers = headers_of payload;
          body = body_of network.dumps payload;
        })
        m)

  -- `BrokerClient(bundle)`
  unfoldable pub broker_client : InstalledBundle → Action S SslContext
  broker_client bundle = do
    context ← reading (λ files. returned (ssl_context bundle files))
    reading (network.check_context context)
    lift (returned context)

  unfoldable pub get_host_ca_public_key : InstalledBundle → SslContext → Action S Text
  get_host_ca_public_key bundle context = do
    response ← request_json bundle context (codes "GET") (codes "/v1/ca/host/pubkey") none
    lift (
        nonblank_text (codes "Broker response did not include host CA public key")
          (get_member (codes "public_key") response))

  unfoldable pub request_user_certificate :
      InstalledBundle → SslContext → Text → Text → List Text → Text → Option Text → Action S Text
  request_user_certificate bundle context public_key key_id principals profile ttl = do
    response ←
        request_json bundle context (codes "POST") (codes "/v1/sign/user")
          (some (request_payload bundle public_key key_id principals profile ttl))
    lift (
        nonblank_text (codes "Broker response did not include a certificate")
          (get_member (codes "certificate") response))
