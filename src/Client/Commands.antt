-- ===== src/Client/Commands.antt =====
-- The commands of src/zfcssh_client/cli.py and src/zfcssh_client/ssh.py.
pub mod Enroll
pub mod Refusal
pub mod Outcome
pub mod Complete
pub mod Renewed
use secure_sshlinux_client.Base.{
  ℕ, Bool, true, false, not, ◌&&◌, Option, none, some, List, [], ◌∷◌, ◌++◌, if◌then◌else◌, is_empty,
  contains, Text, codes, strip, ℤ, pos,
}
use secure_sshlinux_client.Environment.{Library}
use secure_sshlinux_client.Json.{
  Json, null, boolean, string, array, object, Items, end_items, Members, end_members, member,
  strings,
}
use secure_sshlinux_client.Client.Errors.{
  ClientError, bundle_error, broker_error, certificate_error, file_not_found, json_error,
  time_error, unicode_error, url_error, ssl_error, connection_error, missing_key, type_error,
  Answer, failed, returned,
}
use secure_sshlinux_client.Client.Files.{Files, ClientPaths, read_text}
use secure_sshlinux_client.Client.Certificates.{CertificateInfo, needs_renewal}
use secure_sshlinux_client.Client.Bundle.{InstalledBundle, Codec}
use secure_sshlinux_client.Client.Bundle.Values.{import_bundle}
use secure_sshlinux_client.Client.Bundle.Load.{load_installed_bundle}
use secure_sshlinux_client.Client.Machine.{
  Machine, Action, ◌>>=◌, ◌>>◌, lift, reading, on_files, writing, print,
}
use secure_sshlinux_client.Client.Broker.{
  Network, text_or, broker_client, get_host_ca_public_key, request_user_certificate,
}
use secure_sshlinux_client.Client.Keys.{
  Tools, ensure_ssh_tools, ensure_user_key, load_public_key, install_user_certificate,
  trust_host_ca, inspect_installed_certificate,
}

-- `principals or bundle.default_principals`
unfoldable pub principals_or : Option (List Text) → List Text → List Text
principals_or none default = default
principals_or (some []) default = default
principals_or (some (p ∷ ps)) default = p ∷ ps

-- `build_ssh_command`; an empty remote command adds nothing.
unfoldable pub build_ssh_command : Text → ClientPaths → List Text → List Text
build_ssh_command target paths remote_command =
    codes "ssh"
    ∷ codes "-i"
    ∷ paths.user_key_path
    ∷ codes "-o"
    ∷ (codes "CertificateFile=" ++ paths.user_cert_path)
    ∷ codes "-o"
    ∷ (codes "UserKnownHostsFile=" ++ paths.known_hosts_path)
    ∷ codes "-o"
    ∷ codes "StrictHostKeyChecking=yes"
    ∷ codes "-o"
    ∷ codes "IdentitiesOnly=yes"
    ∷ target
    ∷ remote_command

unfoldable pub permitted : InstalledBundle → Text → Answer (Unit {0})
permitted bundle selected_profile =
    if contains bundle.allowed_profiles selected_profile
    then returned tt
    else failed (
        bundle_error (
          codes "Profile '"
          ++ (selected_profile ++ codes "' is not permitted by the imported bundle")))

-- The entries of `_status` that depend on the certificate.
unfoldable pub certificate_members : Option CertificateInfo → Bool → Members
certificate_members none due = member (codes "certificate_present") (boolean false) (
    member (codes "certificate_principals") (array end_items) (
      member (codes "certificate_valid_before") null
        (member (codes "renewal_needed") (boolean true) end_members)))
certificate_members (some certificate) due = member (codes "certificate_present") (boolean true) (
    member (codes "certificate_principals") (array (strings certificate.principals)) (
      member (codes "certificate_valid_before") (string certificate.valid_before)
        (member (codes "renewal_needed") (boolean due) end_members)))

unfoldable pub status_payload : InstalledBundle → ClientPaths → Option CertificateInfo → Bool → Json
status_payload bundle paths certificate due = object (
    member (codes "bundle_id") (string bundle.bundle_id) (
      member (codes "broker_url") (string bundle.broker_url) (
        member (codes "key_path") (string paths.user_key_path) (
          member (codes "certificate_path") (string paths.user_cert_path) (
            member (codes "host_ca_path") (string paths.host_ca_path)
              (certificate_members certificate due))))))

unfoldable pub must_be_installed : Option CertificateInfo → Answer (Unit {0})
must_be_installed none = failed (certificate_error (codes "No installed SSH user certificate"))
must_be_installed (some certificate) = returned tt

unfoldable pub must_not_be_blank : Text → Answer (Unit {0})
must_not_be_blank text =
    if is_empty (strip text)
    then failed (certificate_error (codes "Host CA trust file is empty"))
    else returned tt

-- How ssh ends.
unfoldable pub code_of_call : Option ℤ → Answer ℤ
code_of_call none = failed (file_not_found (codes "ssh"))
code_of_call (some code) = returned code

abbrev pub called : Option ℤ × Files → Answer ℤ × Files
called (ended, files) = (code_of_call ended, files)

module _ {S : Type 0} (network : Network S) (codec : Codec) (tools : Tools)
    (paths : ClientPaths) where
  -- `_enroll`
  unfoldable pub enroll : Option Text → Option (List Text) → Option Text → Action S (Unit {0})
  enroll profile principals ttl = do
    bundle ← reading (load_installed_bundle codec paths)
    let selected_profile = text_or profile bundle.default_profile
    lift (permitted bundle selected_profile)
    lift (ensure_ssh_tools tools)
    on_files (ensure_user_key tools paths bundle.key_id)
    context ← broker_client network bundle
    host_ca ← get_host_ca_public_key network bundle context
    on_files (trust_host_ca tools paths bundle.host_patterns host_ca)
    public_key ← reading (load_public_key paths)
    certificate ←
        request_user_certificate network bundle context public_key bundle.key_id
          (principals_or principals bundle.default_principals) selected_profile ttl
    on_files (install_user_certificate tools paths certificate)
    print (codes "Installed SSH certificate for profile '" ++ (selected_profile ++ codes "'"))

  -- `_verify`
  unfoldable pub verify_command : Action S ℤ
  verify_command = do
    bundle ← reading (load_installed_bundle codec paths)
    lift (ensure_ssh_tools tools)
    on_files (ensure_user_key tools paths bundle.key_id)
    certificate ← reading (inspect_installed_certificate tools paths)
    lift (must_be_installed certificate)
    host_ca ← reading (λ files. read_text files paths.host_ca_path)
    lift (must_not_be_blank host_ca)
    print (codes "Verification passed")
    lift (returned (pos 0))

  module _ (strptime : Text → Option ℕ) (now : ℕ) where
    -- `_status`
    unfoldable pub status_command : Action S ℤ
    status_command = do
      bundle ← reading (load_installed_bundle codec paths)
      certificate ← reading (inspect_installed_certificate tools paths)
      due ← lift (needs_renewal strptime certificate now)
      print (codec.dumps (status_payload bundle paths certificate due))
      lift (returned (pos 0))

    -- `if_needed and not force and not needs_renewal(certificate)`; the last is asked only where the
    -- first two hold.
    unfoldable pub is_current : Bool → Option CertificateInfo → Answer Bool
    is_current asked certificate =
        if asked then not_due (needs_renewal strptime certificate now) else returned false
      where
        not_due : Answer Bool → Answer Bool
        not_due (failed e) = failed e
        not_due (returned due) = returned (not due)

    unfoldable pub renew_unless : Option Text → Option (List Text) → Bool → Action S ℤ
    renew_unless profile principals true = do
      print (codes "Certificate is still outside the renewal window")
      lift (returned (pos 0))
    renew_unless profile principals false = do
      enroll profile principals none
      lift (returned (pos 0))

    -- `_renew`
    unfoldable pub renew : Bool → Bool → Option Text → Option (List Text) → Action S ℤ
    renew force if_needed profile principals = do
      certificate ← reading (inspect_installed_certificate tools paths)
      current ← lift (is_current (if_needed && not force) certificate)
      renew_unless profile principals current

    -- `run_ssh`
    unfoldable pub run_ssh : Text → List Text → Action S ℤ
    run_ssh target remote_command =
        on_files
          (λ files. called (tools.call (build_ssh_command target paths remote_command) files))

    -- `_ssh`
    unfoldable pub ssh : Text → List Text → Bool → Action S ℤ
    ssh target remote_command true = run_ssh target remote_command
    ssh target remote_command false = do renew false true none none; run_ssh target remote_command
