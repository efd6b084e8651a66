-- ===== src/Tests/Commands.antt =====
-- The theorems on the client's connection to the broker and on its commands.
use secure_sshlinux_client.Base.{
  ◌≤◌, ◌≡◌, ◌↔◌, ◌⊎◌, arith, refl, true, none, some, [], ◌∷◌, ◌++◌, if◌then◌else◌, length, Text,
  codes, text_eq, contains, strip, lstrip, rstrip, is_space, dict_get, dict_set, pos,
}
use secure_sshlinux_client.Json.{
  string, object, Members, end_members, member, get_member, has_member, strings,
}
use secure_sshlinux_client.Inspection.{missing}
use secure_sshlinux_client.Endpoints.{get_host_ca}
use secure_sshlinux_client.Routes.{Broker}
use secure_sshlinux_client.Client.Errors.{ClientError, broker_error, bundle_error, failed, returned}
use secure_sshlinux_client.Client.Files.{
  File, Files, ClientPaths, default_paths, write_with_mode, chmod, set_mode, write_text, written,
  end_write, next_step, text_of, universal_newlines,
}
use secure_sshlinux_client.Client.Bundle.Values.{loaded, bundle_to_dict}
use secure_sshlinux_client.Client.Bundle.Load.{
  load_installed_bundle, load_file, bundle_of, mtls_of, text_at, list_at, index, as_text, as_texts,
  as_list, as_dict, as_path, as_optional,
}
use secure_sshlinux_client.Client.Machine.{Machine, ◌>>=◌}
use secure_sshlinux_client.Client.Broker.{
  unreachable, received, Network, max_bytes, read_reply, text_or, broker_client,
  get_host_ca_public_key, request_json, send, within_limit, decoded, object_of, nonblank_text,
  request_user_certificate,
}
use secure_sshlinux_client.Client.Broker.Bounds.{read_reply_iff}
use secure_sshlinux_client.Client.Keys.{
  Tools, public_key_path, ensure_ssh_tools, both, must_have, ensure_user_key, load_public_key,
  public_key_of, trust_host_ca, install_user_certificate, known_text, write_known_hosts,
  replace_known_hosts,
}
use secure_sshlinux_client.Client.Commands.{enroll, permitted}
use secure_sshlinux_client.Client.Keys.Untouched.{BreaksCertificate}
use secure_sshlinux_client.Client.Commands.Enroll.{enroll-failed}
use secure_sshlinux_client.Client.Commands.Refusal.{to_broker, enroll-refused}
use secure_sshlinux_client.Client.Commands.Complete.{enrolled_files, enroll_complete}
use secure_sshlinux_client.Client.Commands.Outcome.{IsEnrolled, enroll-forbidden, enroll-returned}
use secure_sshlinux_client.Tests.Data.{lib, settings, key_hash, world}
use secure_sshlinux_client.Tests.Endpoints.{around, broker}
use secure_sshlinux_client.Tests.Bundle.{home, installed, codec}

abbrev pub paths : ClientPaths
paths = default_paths home

-- Both commands are there; ssh-keygen is never run.
abbrev pub tools : Tools
tools = record {
  which = λ command. true;
  keygen = λ command files. (missing, files);
  list_file = λ text. missing;
  call = λ command files. (some (pos 0), files);
  write = λ path content. written;
}

abbrev pub old : File
old = record { content = codes "old"; mode = none; is_utf8 = true }

abbrev pub public_key : File
public_key = record { content = codes "P\n"; mode = none; is_utf8 = true }

-- The installed bundle, the key pair and an old certificate.
abbrev pub files : Files
files =
    (paths.bundle_metadata_path, record { content = codes "D\n"; mode = none; is_utf8 = true })
    ∷ (paths.user_key_path, record { content = codes "K"; mode = none; is_utf8 = true })
    ∷ (public_key_path paths, public_key)
    ∷ (paths.user_cert_path, old)
    ∷ []

abbrev key_reply : Members
key_reply = member (codes "public_key") (string (codes "ssh-ed25519 AAAA")) end_members

-- A server that answers each request, as the two texts "key" and "cert" that the library parses.
abbrev pub network : (S : Type 0) → Network S
network S = record {
  exchange = λ request server. (
    received (if text_eq request.method (codes "GET") then codes "key" else codes "cert"),
    server,
  );
  check_context = λ context files. returned tt;
  urljoin = λ base path. base ++ path;
  dumps = λ value. [];
  loads = λ text.
      if text_eq text (codes "key")
      then some (object key_reply)
      else some (object (member (codes "certificate") (string (codes " CERT ")) end_members));
  decode = λ bytes. some bytes;
  decode_replace = λ bytes. bytes;
}

abbrev answering : Network (Unit {0})
answering = network Unit

abbrev pub offline : Network (Unit {0})
offline = record answering { exchange = λ request server. (unreachable (codes "no route"), server) }

abbrev pub machine : Machine (Unit {0})
machine = record { files = files; server = tt; printed = [] }

read_reply_iff_example : (read_reply answering (received (codes "key")) ≡ returned key_reply) ↔ (
    (length (codes "key") ≤ max_bytes)
    × ((text : Text) × (answering.decode (codes "key") ≡ some text)
        × (answering.loads text ≡ some (object key_reply))))
read_reply_iff_example = read_reply_iff answering (codes "key") key_reply

enroll-failed_example :
    (dict_get (enroll offline codec tools paths none none none machine).1.files paths.user_cert_path
      ≡ dict_get files paths.user_cert_path)
    ⊎ BreaksCertificate tools paths paths.user_cert_path
        (broker_error (codes "Broker request failed: no route"))
unfolding enroll ◌>>=◌ load_installed_bundle load_file loaded bundle_of mtls_of text_at list_at
    index as_text as_texts as_list as_dict as_path as_optional get_member has_member strings
    bundle_to_dict dict_get text_eq text_or permitted contains ensure_ssh_tools both must_have
    ensure_user_key public_key_path broker_client get_host_ca_public_key request_json send
    read_reply within_limit decoded object_of nonblank_text load_public_key public_key_of
    request_user_certificate strip lstrip rstrip is_space text_of universal_newlines
enroll-failed_example =
    enroll-failed offline codec tools paths none none none paths.user_cert_path machine
      (broker_error (codes "Broker request failed: no route")) (λ comment files k a b. refl)
      (record { no_key = refl; no_public_key = refl; no_host_ca = refl; no_known_hosts = refl })
      refl

enroll-refused_example :
    ((e : ClientError) × ((enroll
          (to_broker lib key_hash world around settings
            (λ request. get_host_ca)
            (λ body. [])
            (network Broker))
          codec
          tools
          paths
          none
          none
          none
          (record { files = files; server = broker; printed = [] })).0
        ≡ failed e))
    × ((enroll
          (to_broker lib key_hash world around settings
            (λ request. get_host_ca)
            (λ body. [])
            (network Broker))
          codec
          tools
          paths
          none
          none
          none
          (record { files = files; server = broker; printed = [] })).1.server
        ≡ broker)
enroll-refused_example =
    enroll-refused lib key_hash world around settings (λ request. get_host_ca) (λ body. [])
      (network Broker) codec tools paths none none none
      (record { files = files; server = broker; printed = [] }) (λ base request e. refl)

enroll-forbidden_example :
    enroll answering codec tools paths (some (codes "custom")) none none machine ≡ (
      failed (bundle_error (codes "Profile 'custom' is not permitted by the imported bundle")),
      machine,
    )
unfolding enroll ◌>>=◌ load_installed_bundle load_file loaded bundle_of mtls_of text_at list_at
    index as_text as_texts as_list as_dict as_path as_optional get_member has_member strings
    bundle_to_dict dict_get text_eq text_or permitted contains ensure_ssh_tools both must_have
    ensure_user_key public_key_path broker_client get_host_ca_public_key request_json send
    read_reply within_limit decoded object_of nonblank_text load_public_key public_key_of
    request_user_certificate strip lstrip rstrip is_space text_of universal_newlines
enroll-forbidden_example =
    enroll-forbidden answering codec tools paths (some (codes "custom")) none none machine installed
      refl refl

enroll-returned_example :
    IsEnrolled answering codec tools paths none none none machine
      (enroll answering codec tools paths none none none machine).1
unfolding install_user_certificate enroll ◌>>=◌ load_installed_bundle load_file loaded bundle_of
    mtls_of text_at list_at index as_text as_texts as_list as_dict as_path as_optional get_member
    has_member strings bundle_to_dict dict_get text_eq text_or permitted contains ensure_ssh_tools
    both must_have ensure_user_key public_key_path broker_client get_host_ca_public_key request_json
    send read_reply within_limit decoded object_of nonblank_text load_public_key public_key_of
    request_user_certificate strip lstrip rstrip is_space trust_host_ca write_known_hosts
    replace_known_hosts known_text next_step write_with_mode chmod set_mode write_text end_write
    dict_set text_of universal_newlines
enroll-returned_example = enroll-returned answering codec tools paths none none none machine tt refl

enroll_complete_example : enroll answering codec tools paths none none none machine ≡ (
  returned tt,
  record {
    files =
        enrolled_files answering codec tools paths installed
          (codes "ssh-ed25519 AAAA")
          (codes " CERT ")
          files;
    server = tt;
    printed = codes "Installed SSH certificate for profile 'development'" ∷ [];
  },
)
unfolding load_installed_bundle load_file loaded bundle_of mtls_of text_at list_at index as_text
    as_texts as_list as_dict as_path as_optional get_member has_member strings bundle_to_dict
    dict_get text_eq text_or contains public_key_path strip lstrip rstrip is_space text_of
    universal_newlines known_text
enroll_complete_example =
    enroll_complete answering codec tools paths none none none installed public_key (codes "P\n")
      (codes "ssh-ed25519 AAAA") (codes " CERT ") tt tt machine
      (record {
        loaded = refl;
        allowed = refl;
        has_ssh = refl;
        has_keygen = refl;
        has_key = refl;
        public_key = refl;
        tls = refl;
      })
      refl refl refl refl (record { writes = λ path content. refl; known = none; reads = refl })
      (record {
        bytes = codes "key";
        text = codes "key";
        members = key_reply;
        exchanged = refl;
        short = omega arith;
        decodes = refl;
        parses = refl;
        entry = refl;
        not_blank = refl;
      })
      (record {
        bytes = codes "cert";
        text = codes "cert";
        members = member (codes "certificate") (string (codes " CERT ")) end_members;
        exchanged = refl;
        short = omega arith;
        decodes = refl;
        parses = refl;
        entry = refl;
        not_blank = refl;
      })
