-- ===== src/Tests/Main.antt =====
-- The theorem on the two programs together.
use secure_sshlinux_client.Base.{◌≡◌, refl, none, [], ◌∷◌, ◌++◌, codes, pos}
use secure_sshlinux_client.Base.{
  text_eq, contains, strip, lstrip, rstrip, is_space, dict_get, dict_set,
}
use secure_sshlinux_client.Json.{get_member, has_member, strings}
use secure_sshlinux_client.Client.Files.{write_with_mode, chmod, set_mode, write_text}
use secure_sshlinux_client.Client.Bundle.Values.{loaded, bundle_to_dict}
use secure_sshlinux_client.Client.Bundle.Load.{
  load_installed_bundle, load_file, bundle_of, mtls_of, text_at, list_at, index, as_text, as_texts,
  as_list, as_dict, as_path, as_optional,
}
use secure_sshlinux_client.Client.Machine.{◌>>=◌}
use secure_sshlinux_client.Client.Files.{text_of, universal_newlines}
use secure_sshlinux_client.Client.Broker.{
  read_reply, text_or, broker_client, get_host_ca_public_key, request_json, send, within_limit,
  decoded, object_of, nonblank_text, request_user_certificate,
}
use secure_sshlinux_client.Client.Keys.{
  public_key_path, ensure_ssh_tools, both, must_have, ensure_user_key, load_public_key,
  public_key_of, trust_host_ca,
}
use secure_sshlinux_client.Client.Commands.{enroll, permitted}
use secure_sshlinux_client.Endpoints.{get_host_ca}
use secure_sshlinux_client.Routes.{Broker}
use secure_sshlinux_client.Client.Machine.{Machine}
use secure_sshlinux_client.Client.Commands.Refusal.{to_broker, refusal}
use secure_sshlinux_client.Client.Main.{enroll_command, exited, main}
use secure_sshlinux_client.Client.Main.Unauthorized.{main_refused}
use secure_sshlinux_client.Tests.Data.{lib, settings, key_hash, world}
use secure_sshlinux_client.Tests.Endpoints.{around, broker}
use secure_sshlinux_client.Tests.Inspection.{strptime}
use secure_sshlinux_client.Tests.Bundle.{installed, codec}
use secure_sshlinux_client.Tests.Commands.{paths, tools, files, network, public_key}

abbrev machine : Machine Broker
machine = record { files = files; server = broker; printed = [] }

main_refused_example :
    main
      (to_broker lib key_hash world around settings
        (λ request. get_host_ca)
        (λ body. [])
        (network Broker))
      codec
      tools
      paths
      strptime
      0
      lib
      (enroll_command none none none)
      machine
    ≡ (
      exited (pos 1),
      record machine {
        printed =
            (codes "ERROR: "
              ++ refusal lib key_hash world around settings
                  (λ request. get_host_ca)
                  (λ body. [])
                  (network Broker))
            ∷ [];
      },
    )
unfolding enroll ◌>>=◌ load_installed_bundle load_file loaded bundle_of mtls_of text_at list_at
    index as_text as_texts as_list as_dict as_path as_optional get_member has_member strings
    bundle_to_dict dict_get text_eq text_or permitted contains ensure_ssh_tools both must_have
    ensure_user_key public_key_path broker_client get_host_ca_public_key request_json send
    read_reply within_limit decoded object_of nonblank_text load_public_key public_key_of
    request_user_certificate strip lstrip rstrip is_space trust_host_ca text_of universal_newlines
    write_with_mode chmod set_mode write_text dict_set
main_refused_example =
    main_refused lib key_hash world around settings (λ request. get_host_ca) (λ body. [])
      (network Broker) codec tools paths strptime 0 none none none installed public_key machine
      (record {
        loaded = refl;
        allowed = refl;
        has_ssh = refl;
        has_keygen = refl;
        has_key = refl;
        public_key = refl;
        tls = refl;
      })
      (λ request e. refl)
