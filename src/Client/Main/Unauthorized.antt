-- ===== src/Client/Main/Unauthorized.antt =====
-- The two programs together: `zfcssh enroll` against the broker.
use secure_sshlinux_client.Base.{
  ℕ, ◌≡◌, refl, sym, subst, Option, none, List, [], ◌∷◌, ◌++◌, Text, codes, pos,
}
use secure_sshlinux_client.Environment.{Library}
use secure_sshlinux_client.Settings.{Settings}
use secure_sshlinux_client.Store.{HashPayload}
use secure_sshlinux_client.Signing.{World}
use secure_sshlinux_client.Routes.{Broker}
use secure_sshlinux_client.Replies.{Body}
use secure_sshlinux_client.Endpoints.{Surroundings, Call, get_host_ca}
use secure_sshlinux_client.Endpoints.Refused.{NeedsToken}
use secure_sshlinux_client.Client.Errors.{failed}
use secure_sshlinux_client.Client.Files.{File, ClientPaths}
use secure_sshlinux_client.Client.Bundle.{InstalledBundle, Codec}
use secure_sshlinux_client.Client.Machine.{Machine, ◌>>=◌}
use secure_sshlinux_client.Client.Broker.{
  HttpRequest, Network, SslContext, text_or, ssl_context, get_host_ca_public_key,
}
use secure_sshlinux_client.Client.Keys.{Tools}
use secure_sshlinux_client.Client.Commands.{enroll, permitted}
use secure_sshlinux_client.Client.Commands.Complete.{
  IsPrepared, ensure_ssh_tools-found, ensure_user_key-found, broker_client-found,
}
use secure_sshlinux_client.Client.Commands.Refusal.{
  to_broker, refusal, refused, request_json-refused,
}
use secure_sshlinux_client.Client.Main.{
  enroll_command, run_command, exited, reported, end_failed, end_command, main,
}

module _ (lib : Library) (build_hash : HashPayload → Text) (world : World) (around : Surroundings)
    (settings : Settings) (route : HttpRequest → Call) (print_body : Body → List ℕ)
    (network : Network Broker) where
  abbrev connected : Network Broker
  connected = to_broker lib build_hash world around settings route print_body network

  get_host_ca_public_key-refused :
      (bundle : InstalledBundle) (context : SslContext) (m : Machine Broker)
      → ((request : HttpRequest)
          → request.url ≡ network.urljoin bundle.broker_url (codes "/v1/ca/host/pubkey")
          → NeedsToken (route request))
      → get_host_ca_public_key connected bundle context m
        ≡ (failed (refused lib build_hash world around settings route print_body network), m)
  unfolding get_host_ca_public_key ◌>>=◌
  get_host_ca_public_key-refused bundle context m h =
      rw
        (request_json-refused lib build_hash world around settings route print_body network bundle
          context (codes "GET") (codes "/v1/ca/host/pubkey") none m h)
        refl

  module _ (codec : Codec) (tools : Tools) (paths : ClientPaths) where
    enroll_stopped :
        (profile : Option Text) (principals : Option (List Text)) (ttl : Option Text)
        (bundle : InstalledBundle) (key : File) (m : Machine Broker)
        → IsPrepared connected codec tools paths bundle
            (text_or profile bundle.default_profile)
            key
            m.files
        → ((request : HttpRequest)
            → request.url ≡ network.urljoin bundle.broker_url (codes "/v1/ca/host/pubkey")
            → NeedsToken (route request))
        → enroll connected codec tools paths profile principals ttl m
          ≡ (failed (refused lib build_hash world around settings route print_body network), m)
    unfolding enroll ◌>>=◌ permitted
    enroll_stopped profile principals ttl bundle key m p h =
        rw
          (
            p.loaded,
            p.allowed,
            ensure_ssh_tools-found connected codec tools paths p.has_ssh p.has_keygen,
            ensure_user_key-found connected codec tools paths bundle.key_id m.files key p.has_key
                p.public_key,
            broker_client-found connected codec tools paths bundle m p.tls,
            get_host_ca_public_key-refused bundle (ssl_context bundle m.files) m h,
          )
          refl

    -- `zfcssh enroll` of a prepared client, whose requests go to the broker, prints the broker's 401 and
    -- exits with 1; no file changes, and the broker's store and audit log stay. The framework must take a
    -- request for the path of the host CA's public key to its endpoint.
    pub main_refused :
        (strptime : Text → Option ℕ) (now : ℕ) (profile : Option Text)
        (principals : Option (List Text)) (ttl : Option Text) (bundle : InstalledBundle)
        (key : File) (m : Machine Broker)
        → IsPrepared connected codec tools paths bundle
            (text_or profile bundle.default_profile)
            key
            m.files
        → ((request : HttpRequest)
            → request.url ≡ network.urljoin bundle.broker_url (codes "/v1/ca/host/pubkey")
            → route request ≡ get_host_ca)
        → main connected codec tools paths strptime now lib
            (enroll_command profile principals ttl)
            m
          ≡ (
            exited (pos 1),
            record m {
              printed =
                  m.printed
                  ++ (codes "ERROR: "
                      ++ refusal lib build_hash world around settings route print_body network)
                    ∷ [];
            },
          )
    unfolding main run_command end_command end_failed reported ◌>>=◌
    main_refused strptime now profile principals ttl bundle key m p h =
        rw
          (enroll_stopped profile principals ttl bundle key m p
            (λ request e. subst NeedsToken (sym (h request e)) tt))
          refl
