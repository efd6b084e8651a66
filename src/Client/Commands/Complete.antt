-- ===== src/Client/Commands/Complete.antt =====
-- Enrolments that go through.
use secure_sshlinux_client.Base.{
  ap, ◌≡◌, refl, ◌∙◌, true, false, Option, none, some, List, [], ◌∷◌, ◌++◌, contains, Text, codes,
  strip, text_eq, dict_get,
}
use secure_sshlinux_client.Client.Errors.{returned}
use secure_sshlinux_client.Client.Files.{
  File, Files, ClientPaths, written, is_file, text_of, next_step, write_with_mode, owner_only,
  world_readable,
}
use secure_sshlinux_client.Client.Files.Laws.{write_with_mode-Spares, write_with_mode-written}
use secure_sshlinux_client.Client.KnownHosts.{install_host_ca}
use secure_sshlinux_client.Client.Bundle.{InstalledBundle, Codec}
use secure_sshlinux_client.Client.Bundle.Load.{load_installed_bundle}
use secure_sshlinux_client.Client.Machine.{Machine, ◌>>=◌}
use secure_sshlinux_client.Client.Broker.{
  Network, request_payload, text_or, ssl_context, broker_client,
}
use secure_sshlinux_client.Client.Keys.{
  Tools, public_key_path, must_have, both, ensure_ssh_tools, ensure_user_key, public_key_of,
  load_public_key, install_user_certificate, known_text, replace_known_hosts, write_known_hosts,
  trust_host_ca,
}
use secure_sshlinux_client.Client.Commands.{principals_or, permitted, enroll}
use secure_sshlinux_client.Client.Keys.Untouched.{trust_host_ca-dict_get}
use secure_sshlinux_client.Client.Broker.Answered.{
  request_for, Replies, get_host_ca_public_key-answered, request_user_certificate-answered,
}

module _ {S : Type 0} (network : Network S) (codec : Codec) (tools : Tools)
    (paths : ClientPaths) where
  -- What the client finds before it asks the broker: the commands, the bundle, a profile that it allows,
  -- the key pair and TLS material that the library takes.
  pub record IsPrepared (bundle : InstalledBundle) (profile : Text) (key : File) (files : Files)
      : Type 0 where
    pub loaded : load_installed_bundle codec paths files ≡ returned bundle
    pub allowed : contains bundle.allowed_profiles profile ≡ true
    pub has_ssh : tools.which (codes "ssh") ≡ true
    pub has_keygen : tools.which (codes "ssh-keygen") ≡ true
    pub has_key : is_file files paths.user_key_path ≡ true
    pub public_key : dict_get files (public_key_path paths) ≡ some key
    pub tls : network.check_context (ssl_context bundle files) files ≡ returned tt

  pub ensure_ssh_tools-found :
      tools.which (codes "ssh") ≡ true
      → tools.which (codes "ssh-keygen") ≡ true
      → ensure_ssh_tools tools ≡ returned tt
  unfolding ensure_ssh_tools both must_have
  ensure_ssh_tools-found s k = rw (s, k) refl

  pub ensure_user_key-found :
      (comment : Text) (files : Files) (key : File)
      → is_file files paths.user_key_path ≡ true
      → dict_get files (public_key_path paths) ≡ some key
      → ensure_user_key tools paths comment files ≡ (returned tt, files)
  unfolding ensure_user_key
  ensure_user_key-found comment files key h g = rw (h, g) refl

  pub broker_client-found :
      (bundle : InstalledBundle) (m : Machine S)
      → network.check_context (ssl_context bundle m.files) m.files ≡ returned tt
      → broker_client network bundle m ≡ (returned (ssl_context bundle m.files), m)
  unfolding broker_client ◌>>=◌
  broker_client-found bundle m h = rw h refl

  load_public_key-found :
      (files : Files) (key : File) (text : Text)
      → dict_get files (public_key_path paths) ≡ some key
      → text_of key ≡ returned text
      → load_public_key paths files ≡ returned (strip text)
  unfolding load_public_key public_key_of
  load_public_key-found files key text h r = rw (h, r) refl

  -- The system carries out every write, and known_hosts can be read where it is there.
  pub record CanWrite (files : Files) : Type 0 where
    pub writes : (path content : Text) → tools.write path content ≡ written
    pub known : Option Text
    pub reads : known_text (dict_get files paths.known_hosts_path) ≡ returned known

  trust_host_ca-returned :
      (host_patterns : List Text) (public_key : Text) (files : Files)
      → CanWrite files
      → text_eq paths.host_ca_path paths.known_hosts_path ≡ false
      → (trust_host_ca tools paths host_patterns public_key files).0 ≡ returned tt
  unfolding trust_host_ca write_known_hosts replace_known_hosts next_step
  trust_host_ca-returned host_patterns public_key files w other =
      let text = (install_host_ca host_patterns public_key none).0 in
      let first = write_with_mode tools.write paths.host_ca_path text world_readable files in
      let ran : first ≡ (returned tt, first.1) =
        ap (λ a. (a, first.1))
          (write_with_mode-written tools.write paths.host_ca_path text world_readable files
            (w.writes _ _)) in
      let kept : known_text (dict_get first.1 paths.known_hosts_path) ≡ returned w.known =
        ap known_text (
          write_with_mode-Spares tools.write paths.host_ca_path text world_readable
            paths.known_hosts_path other files)
        ∙ w.reads in
      rw (ran, kept)
        (write_with_mode-written tools.write paths.known_hosts_path _ owner_only first.1
          (w.writes _ _))

  -- What an enrolment leaves: the host CA trusted, and the certificate installed.
  abbrev pub enrolled_files : InstalledBundle → Text → Text → Files → Files
  enrolled_files bundle host_ca certificate files =
      (install_user_certificate tools paths (strip certificate)
        (trust_host_ca tools paths bundle.host_patterns (strip host_ca) files).1).1

  -- An enrolment goes through when the commands, the bundle, an allowed profile, the key pair, whose
  -- public key is UTF-8, and good TLS material are there, the files of the public key, of the host CA and
  -- known_hosts are three, every write is carried out, known_hosts can be read, and the broker answers the
  -- request for the host CA's key, and then the one for a certificate, which holds the client's public key
  -- stripped, with few enough bytes of a JSON object that holds a text under `public_key` or `certificate`
  -- that is not blank: the host CA is trusted, then the certificate is installed.
  pub enroll_complete :
      (profile : Option Text) (principals : Option (List Text)) (ttl : Option Text)
      (bundle : InstalledBundle) (key : File) (key_text host_ca certificate : Text)
      (asked answered : S) (m : Machine S)
      → IsPrepared bundle (text_or profile bundle.default_profile) key m.files
      → text_of key ≡ returned key_text
      → text_eq paths.host_ca_path (public_key_path paths) ≡ false
      → text_eq paths.known_hosts_path (public_key_path paths) ≡ false
      → text_eq paths.host_ca_path paths.known_hosts_path ≡ false
      → CanWrite m.files
      → Replies network
          (request_for network bundle
            (ssl_context bundle m.files)
            (codes "GET")
            (codes "/v1/ca/host/pubkey")
            none)
          m.server
          (codes "public_key")
          host_ca
          asked
      → Replies network
          (request_for network bundle
            (ssl_context bundle m.files)
            (codes "POST")
            (codes "/v1/sign/user")
            (some (
              request_payload bundle
                (strip key_text)
                bundle.key_id
                (principals_or principals bundle.default_principals)
                (text_or profile bundle.default_profile)
                ttl)))
          asked
          (codes "certificate")
          certificate
          answered
      → enroll network codec tools paths profile principals ttl m ≡ (
        returned tt,
        record {
          files = enrolled_files bundle host_ca certificate m.files;
          server = answered;
          printed =
              m.printed
              ++ (codes "Installed SSH certificate for profile '"
                  ++ (text_or profile bundle.default_profile ++ codes "'"))
                ∷ [];
        },
      )
  unfolding enroll ◌>>=◌ permitted install_user_certificate
  enroll_complete profile principals ttl bundle key key_text host_ca certificate asked answered m p
        utf8 a b other w asks signs =
      let context = ssl_context bundle m.files in
      let trust = trust_host_ca tools paths bundle.host_patterns (strip host_ca) m.files in
      let trusted : trust ≡ (returned tt, trust.1) =
        ap (λ r. (r, trust.1))
          (trust_host_ca-returned bundle.host_patterns (strip host_ca) m.files w other) in
      let same : dict_get trust.1 (public_key_path paths) ≡ some key =
        trust_host_ca-dict_get tools paths bundle.host_patterns (strip host_ca)
          (public_key_path paths) a b m.files
        ∙ p.public_key in
      let there : Machine S = record { files = trust.1; server = asked; printed = m.printed } in
      let install =
        write_with_mode tools.write paths.user_cert_path (strip (strip certificate) ++ codes "\n")
          owner_only trust.1 in
      let installed : install ≡ (returned tt, install.1) =
        ap (λ r. (r, install.1))
          (write_with_mode-written tools.write paths.user_cert_path _ owner_only trust.1
            (w.writes _ _)) in
      rw
        (
          p.loaded,
          p.allowed,
          ensure_ssh_tools-found p.has_ssh p.has_keygen,
          ensure_user_key-found bundle.key_id m.files key p.has_key p.public_key,
          broker_client-found bundle m p.tls,
          get_host_ca_public_key-answered network bundle context host_ca m asked asks,
          trusted,
          load_public_key-found trust.1 key key_text same utf8,
          request_user_certificate-answered network bundle context (strip key_text) bundle.key_id
              (principals_or principals bundle.default_principals)
              (text_or profile bundle.default_profile) ttl certificate there answered signs,
          installed,
        )
        refl
