-- ===== src/Tests/Bundle.antt =====
-- The theorems on the client's bundle.
use secure_sshlinux_client.Base.{
  ◌≡◌, refl, true, none, some, [], ◌∷◌, if◌then◌else◌, Text, codes, text_eq, contains, append_new,
  strip, lstrip, rstrip, is_space, dict_get,
}
use secure_sshlinux_client.Json.{
  Json, string, array, object, Members, end_members, member, strings, get_member, truthy,
}
use secure_sshlinux_client.Client.Errors.{bundle_error, returned}
use secure_sshlinux_client.Client.Files.{
  Files, written, read_text, content_of, text_of, universal_newlines, next_step, write_text,
  end_write, write_with_mode, default_paths,
}
use secure_sshlinux_client.Client.Bundle.{
  Codec, InstalledBundle, dict_value, required_text, text_value, nonblank, validate_string_list,
  keep_strings, given_text, pem_of, resolve_optional_pem_value, resolve_pem_value, required_pem,
  check_url, validate_broker_url,
}
use secure_sshlinux_client.Client.Bundle.Values.{
  bundle_to_dict, import_bundle, import_material, read_material, write_metadata, after_material,
  write_material, write_ca, remove_ca, close_material, installed_bundle, material, loaded,
  identity_of, identity_or, reason_of, profiles_or, listed_profile, key_id_of, ca_path_of,
}
use secure_sshlinux_client.Client.Bundle.Load.{load_installed_bundle}
use secure_sshlinux_client.Client.Bundle.RoundTrip.{import_bundle-load_installed_bundle}
use secure_sshlinux_client.Client.Bundle.Refused.{KeptBundle, import_bundle-failed}
use secure_sshlinux_client.Tests.Data.{lib}

abbrev pub home : Text
home = codes "/h"

-- The part `ssh` of a bundle whose default profile is this one.
abbrev ssh_part : Text → Members
ssh_part profile = member (codes "host_patterns") (array (strings (codes "*.x" ∷ []))) (
    member (codes "default_principals") (array (strings (codes "root" ∷ []))) (
      member (codes "default_profile") (string profile) (
        member (codes "allowed_profiles") (array (strings (codes "development" ∷ [])))
          end_members)))

-- A bundle, as its text is parsed.
abbrev payload : Text → Json
payload profile = object (
    member (codes "bundle_id") (string (codes "pc")) (
      member (codes "broker_url") (string (codes "https://b")) (
        member (codes "mtls")
          (object (
            member (codes "client_certificate_pem") (string (codes "C"))
              (member (codes "client_key_pem") (string (codes "K")) end_members)))
          (member (codes "ssh") (object (ssh_part profile)) end_members))))

abbrev pub installed : InstalledBundle
installed = record {
  bundle_id = codes "pc";
  broker_url = codes "https://b";
  mtls = record {
    client_certificate_path = (default_paths home).client_certificate_path;
    client_key_path = (default_paths home).client_key_path;
    ca_certificate_path = none;
  };
  host_patterns = codes "*.x" ∷ [];
  default_principals = codes "root" ∷ [];
  default_profile = codes "development";
  allowed_profiles = codes "development" ∷ [];
  key_id = codes "pc";
  requester = codes "pc";
  reason = none;
}

-- This JSON library knows three texts: two bundles, and the one that it dumps.
abbrev pub codec : Codec
codec = record {
  loads = λ s.
      if text_eq s (codes "good")
      then some (payload (codes "development"))
      else if text_eq s (codes "bad")
      then some (payload (codes "custom"))
      else if text_eq s (codes "D\n")
      then some (bundle_to_dict installed)
      else none;
  dumps = λ value. codes "D";
  str = λ value. [];
  resolve = λ bundle_path value. value;
  write = λ path content. written;
}

abbrev files : Files
files =
    (codes "good.json", record { content = codes "good"; mode = none; is_utf8 = true })
    ∷ (codes "bad.json", record { content = codes "bad"; mode = none; is_utf8 = true })
    ∷ (
      (default_paths home).bundle_metadata_path,
      record { content = codes "old"; mode = none; is_utf8 = true },
    )
    ∷ []

import_bundle-load_installed_bundle_example :
    load_installed_bundle codec
      (default_paths home)
      (import_bundle lib codec (codes "good.json") (default_paths home) files).1
    ≡ returned installed
unfolding import_bundle import_material read_material write_metadata after_material write_material
    write_ca remove_ca close_material next_step write_text end_write write_with_mode text_of
    universal_newlines installed_bundle material loaded read_text content_of dict_get text_eq
    get_member truthy dict_value required_text text_value nonblank validate_string_list keep_strings
    append_new contains strings given_text pem_of resolve_optional_pem_value resolve_pem_value
    required_pem check_url validate_broker_url strip lstrip rstrip is_space identity_of identity_or
    reason_of profiles_or listed_profile key_id_of ca_path_of
import_bundle-load_installed_bundle_example =
    import_bundle-load_installed_bundle lib codec home (codes "good.json") files installed refl refl

import_bundle-failed_example :
    KeptBundle lib codec home files
      (bundle_error (codes "ssh.default_profile must be listed in ssh.allowed_profiles"))
      (import_bundle lib codec (codes "bad.json") (default_paths home) files).1
unfolding import_bundle import_material read_material write_metadata after_material write_material
    write_ca remove_ca close_material next_step write_text end_write write_with_mode text_of
    universal_newlines installed_bundle material loaded read_text content_of dict_get text_eq
    get_member truthy dict_value required_text text_value nonblank validate_string_list keep_strings
    append_new contains strings given_text pem_of resolve_optional_pem_value resolve_pem_value
    required_pem check_url validate_broker_url strip lstrip rstrip is_space identity_of identity_or
    reason_of profiles_or listed_profile key_id_of ca_path_of
import_bundle-failed_example =
    import_bundle-failed lib codec home (codes "bad.json") files
      (bundle_error (codes "ssh.default_profile must be listed in ssh.allowed_profiles")) refl
