-- ===== src/Client/Broker/Answered.antt =====
-- What the calls of `BrokerClient` return where the broker's answer holds what they look for.
use secure_sshlinux_client.Base.{
  ℕ, ◌≤◌, length, is_empty, ◌≡◌, refl, false, Option, none, some, List, Text, codes, strip,
}
use secure_sshlinux_client.Client.Errors.{returned}
use secure_sshlinux_client.Json.{Json, string, object, Members, get_member}
use secure_sshlinux_client.Client.Files.{}
use secure_sshlinux_client.Client.Broker.Bounds.{read_reply_iff}
use secure_sshlinux_client.Client.Bundle.{InstalledBundle}
use secure_sshlinux_client.Client.Machine.{Machine, ◌>>=◌}
use secure_sshlinux_client.Client.Broker.{
  Network, HttpRequest, SslContext, received, headers_of, body_of, max_bytes, read_reply, send,
  request_json, request_payload, nonblank_text, get_host_ca_public_key, request_user_certificate,
}
use secure_sshlinux_client.Client.Keys.{}

module _ {S : Type 0} (network : Network S) where
  -- The request of a call, and the broker's answer to it: few enough bytes, which decode to the text of a
  -- JSON object that holds a text under the key, not all white space.
  abbrev pub request_for : InstalledBundle → SslContext → Text → Text → Option Json → HttpRequest
  request_for bundle context method path payload = record {
    context = context;
    method = method;
    url = network.urljoin bundle.broker_url path;
    headers = headers_of payload;
    body = body_of network.dumps payload;
  }

  pub record Replies (request : HttpRequest) (before : S) (key value : Text) (after : S)
      : Type 0 where
    pub bytes : List ℕ
    pub text : Text
    pub members : Members
    pub exchanged : network.exchange request before ≡ (received bytes, after)
    pub short : length bytes ≤ max_bytes
    pub decodes : network.decode bytes ≡ some text
    pub parses : network.loads text ≡ some (object members)
    pub entry : get_member key members ≡ string value
    pub not_blank : is_empty (strip value) ≡ false

  request_json-answered :
      (bundle : InstalledBundle) (context : SslContext) (method path key value : Text)
      (payload : Option Json) (m : Machine S) (after : S)
      (r : Replies (request_for bundle context method path payload) m.server key value after)
      → request_json network bundle context method path payload m
        ≡ (returned r.members, record m { server = after })
  unfolding request_json send
  request_json-answered bundle context method path key value payload m after r =
      let read : read_reply network (received r.bytes) ≡ returned r.members =
        (read_reply_iff network r.bytes r.members).1 (r.short, (r.text, r.decodes, r.parses)) in
      rw (r.exchanged, read) refl

  nonblank_text-found :
      (message value : Text)
      → is_empty (strip value) ≡ false
      → nonblank_text message (string value) ≡ returned (strip value)
  unfolding nonblank_text
  nonblank_text-found message value h = rw h refl

  pub get_host_ca_public_key-answered :
      (bundle : InstalledBundle) (context : SslContext) (value : Text) (m : Machine S) (after : S)
      → Replies
          (request_for bundle context (codes "GET") (codes "/v1/ca/host/pubkey") none)
          m.server
          (codes "public_key")
          value
          after
      → get_host_ca_public_key network bundle context m
        ≡ (returned (strip value), record m { server = after })
  unfolding get_host_ca_public_key ◌>>=◌
  get_host_ca_public_key-answered bundle context value m after r =
      rw
        (
          request_json-answered bundle context _ _ _ _ none m after r,
          r.entry,
          nonblank_text-found _ value r.not_blank,
        )
        refl

  pub request_user_certificate-answered :
      (bundle : InstalledBundle) (context : SslContext) (public_key key_id : Text)
      (principals : List Text) (profile : Text) (ttl : Option Text) (value : Text) (m : Machine S)
      (after : S)
      → Replies
          (request_for bundle context
            (codes "POST")
            (codes "/v1/sign/user")
            (some (request_payload bundle public_key key_id principals profile ttl)))
          m.server
          (codes "certificate")
          value
          after
      → request_user_certificate network bundle context public_key key_id principals profile ttl m
        ≡ (returned (strip value), record m { server = after })
  unfolding request_user_certificate ◌>>=◌
  request_user_certificate-answered bundle context public_key key_id principals profile ttl value m
        after r =
      rw
        (
          request_json-answered bundle context _ _ _ _ _ m after r,
          r.entry,
          nonblank_text-found _ value r.not_blank,
        )
        refl
