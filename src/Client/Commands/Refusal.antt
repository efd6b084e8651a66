-- ===== src/Client/Commands/Refusal.antt =====
-- The client in front of the broker: its requests carry no Authorization header.
use secure_sshlinux_client.Base.{
  ℕ, ◌≡◌, refl, ap, sym, subst, Option, none, some, List, [], ◌∷◌, ◌++◌, if◌then◌else◌, take, Text,
  codes, text_eq, lower, show_ℕ, Dict, leb,
}
use secure_sshlinux_client.Environment.{Library}
use secure_sshlinux_client.Json.{Json}
use secure_sshlinux_client.Settings.{Settings}
use secure_sshlinux_client.Store.{HashPayload}
use secure_sshlinux_client.Errors.{auth_required}
use secure_sshlinux_client.Auth.{require_auth, bearer_token, unauthorized}
use secure_sshlinux_client.Signing.{World}
use secure_sshlinux_client.Routes.{Broker}
use secure_sshlinux_client.Replies.{Body, Response, error_response, http_exception_handler}
use secure_sshlinux_client.Endpoints.{Surroundings, Call, get_host_ca, respond}
use secure_sshlinux_client.Endpoints.Refused.{NeedsToken, respond-rejected}
use secure_sshlinux_client.Client.Errors.{ClientError, failed, broker_error}
use secure_sshlinux_client.Client.Files.{ClientPaths}
use secure_sshlinux_client.Client.Bundle.{InstalledBundle, Codec}
use secure_sshlinux_client.Client.Machine.{Machine}
use secure_sshlinux_client.Client.Broker.{
  HttpRequest, HttpReply, http_error, received, Network, SslContext, headers_of, read_reply, send,
  request_json, body_of, max_bytes, get_host_ca_public_key, broker_client,
}
use secure_sshlinux_client.Client.Machine.Frame.{
  KeepsServer, >>=-KeepsServer, Fails, on_files-KeepsServer, >>=-Fails-first, >>=-Fails-next,
}
use secure_sshlinux_client.Client.Keys.{Tools, ensure_user_key}
use secure_sshlinux_client.Client.Commands.{enroll}

-- The value of a header; the case of its name does not matter.
unfoldable pub find_header : Text → Dict Text → Option Text
find_header name [] = none
find_header name ((key, value) ∷ headers) =
    let later = find_header name headers in if text_eq (lower key) name then some value else later

headers_of-authorization :
    (payload : Option Json) → find_header (codes "authorization") (headers_of payload) ≡ none
unfolding headers_of find_header text_eq
headers_of-authorization none = refl
headers_of-authorization (some payload) = refl

-- `urllib` raises `HTTPError` for a status from 400 on.
abbrev pub reply_of : (Body → List ℕ) → Response → HttpReply
reply_of print_body r =
    if leb 400 r.status_code
    then http_error r.status_code (print_body r.body)
    else received (print_body r.body)

abbrev pub answered : (Body → List ℕ) → Response × Broker → HttpReply × Broker
answered print_body (r, broker) = (reply_of print_body r, broker)

-- The broker as the network's other side: the framework finds the endpoint of a request and prints the
-- body of its reply.
module _ (lib : Library) (build_hash : HashPayload → Text) (world : World) (around : Surroundings)
    (settings : Settings) (route : HttpRequest → Call) (print_body : Body → List ℕ)
    (network : Network Broker) where
  abbrev pub broker_exchange : HttpRequest → Broker → HttpReply × Broker
  broker_exchange request broker = answered print_body (
      respond lib build_hash world around settings
        (find_header (codes "authorization") request.headers) (route request) broker)

  abbrev pub to_broker : Network Broker
  to_broker = record network { exchange = broker_exchange }

  abbrev pub missing_header : Response
  missing_header =
      error_response (unauthorized auth_required (codes "Missing Authorization header"))

  -- The text of the error that the client makes of the refusal.
  abbrev pub refusal : Text
  refusal =
      codes "Broker request failed with HTTP "
      ++ (show_ℕ 401
          ++ (codes ": "
              ++ network.decode_replace (take max_bytes (print_body missing_header.body))))

  abbrev pub refused : ClientError
  refused = broker_error refusal

  -- Whatever the client asks of an endpoint that needs a token, it is told that the header is missing,
  -- and nothing changes.
  pub request_json-refused :
      (bundle : InstalledBundle) (context : SslContext) (method path : Text) (payload : Option Json)
      (m : Machine Broker)
      → ((request : HttpRequest)
          → request.url ≡ network.urljoin bundle.broker_url path
          → NeedsToken (route request))
      → request_json to_broker bundle context method path payload m ≡ (failed refused, m)
  unfolding request_json send read_reply require_auth bearer_token error_response
      http_exception_handler
  request_json-refused bundle context method path payload m h =
      let request : HttpRequest = record {
        context = context;
        method = method;
        url = network.urljoin bundle.broker_url path;
        headers = headers_of payload;
        body = body_of network.dumps payload;
      } in
      let rejected : respond lib build_hash world around settings none (route request) m.server
          ≡ (missing_header, m.server) =
        respond-rejected lib build_hash world around settings none (route request) m.server
          (unauthorized auth_required (codes "Missing Authorization header")) (h request refl)
          refl in
      rw (headers_of-authorization payload, rejected) refl

  get_host_ca_public_key-Fails :
      (bundle : InstalledBundle) (context : SslContext)
      → ((request : HttpRequest)
          → request.url ≡ network.urljoin bundle.broker_url (codes "/v1/ca/host/pubkey")
          → NeedsToken (route request))
      → Fails (get_host_ca_public_key to_broker bundle context)
  unfolding get_host_ca_public_key
  get_host_ca_public_key-Fails bundle context h = >>=-Fails-first _ _ (λ m.
      let stopped =
        request_json-refused bundle context (codes "GET") (codes "/v1/ca/host/pubkey") none m h in
      ((refused, ap (λ r. r.0) stopped), ap (λ r. r.1.server) stopped))

  broker_client-KeepsServer :
      (bundle : InstalledBundle) → KeepsServer (broker_client to_broker bundle)
  unfolding broker_client
  broker_client-KeepsServer bundle =
      >>=-KeepsServer _ _ (λ m. refl) (λ context. >>=-KeepsServer _ _ (λ m. refl) (λ u. λ m. refl))

  module _ (codec : Codec) (tools : Tools) (paths : ClientPaths) where
    enroll-Fails :
        (profile : Option Text) (principals : Option (List Text)) (ttl : Option Text)
        → ((base : Text) (request : HttpRequest)
            → request.url ≡ network.urljoin base (codes "/v1/ca/host/pubkey")
            → NeedsToken (route request))
        → Fails (enroll to_broker codec tools paths profile principals ttl)
    unfolding enroll
    enroll-Fails profile principals ttl h =
        >>=-Fails-next _ _ (λ m. refl)
          (λ bundle.
            >>=-Fails-next _ _ (λ m. refl)
              (λ u.
                >>=-Fails-next _ _ (λ m. refl)
                  (λ u.
                    >>=-Fails-next _ _
                      (on_files-KeepsServer (ensure_user_key tools paths bundle.key_id))
                      (λ u. >>=-Fails-next _ _ (broker_client-KeepsServer bundle) (λ context.
                        >>=-Fails-first _ _
                          (get_host_ca_public_key-Fails bundle context (h bundle.broker_url)))))))

    -- An enrolment against the broker fails, with every bundle and for all options, and the broker signs
    -- nothing, when the framework takes a request for the public key of the host CA to its endpoint.
    pub enroll-refused :
        (profile : Option Text) (principals : Option (List Text)) (ttl : Option Text)
        (m : Machine Broker)
        → ((base : Text) (request : HttpRequest)
            → request.url ≡ network.urljoin base (codes "/v1/ca/host/pubkey")
            → route request ≡ get_host_ca)
        → ((e : ClientError) × ((enroll to_broker codec tools paths profile principals ttl m).0
              ≡ failed e))
          × ((enroll to_broker codec tools paths profile principals ttl m).1.server ≡ m.server)
    enroll-refused profile principals ttl m h =
        enroll-Fails profile principals ttl
          (λ base request e. subst NeedsToken (sym (h base request e)) tt) m
