-- ===== src/Client/Main.antt =====
-- `main` of src/zfcssh_client/cli.py: the commands, and how the program ends.
pub mod Unauthorized
use secure_sshlinux_client.Base.{
  ℕ, Bool, true, false, not, ◌&&◌, Option, none, some, List, [], ◌∷◌, ◌++◌, if◌then◌else◌, is_empty,
  contains, Text, codes, strip, ℤ, pos,
}
use secure_sshlinux_client.Environment.{Library}
use secure_sshlinux_client.Json.{
  Json, null, boolean, string, array, object, Items, end_items, Members, end_members, member,
  strings,
}
use secure_sshlinux_client.Client.Errors.{
  ClientError, bundle_error, broker_error, certificate_error, file_not_found, json_error,
  time_error, unicode_error, url_error, ssl_error, connection_error, value_error, os_error,
  missing_key, type_error, Answer, failed, returned,
}
use secure_sshlinux_client.Client.Files.{Files, ClientPaths, read_text}
use secure_sshlinux_client.Client.Certificates.{CertificateInfo, needs_renewal}
use secure_sshlinux_client.Client.Bundle.{InstalledBundle, Codec}
use secure_sshlinux_client.Client.Bundle.Values.{import_bundle}
use secure_sshlinux_client.Client.Bundle.Load.{load_installed_bundle}
use secure_sshlinux_client.Client.Machine.{
  Machine, Action, ◌>>=◌, ◌>>◌, lift, reading, on_files, writing, print,
}
use secure_sshlinux_client.Client.Broker.{
  Network, text_or, broker_client, get_host_ca_public_key, request_user_certificate,
}
use secure_sshlinux_client.Client.Keys.{
  Tools, ensure_ssh_tools, ensure_user_key, load_public_key, install_user_certificate,
  trust_host_ca, inspect_installed_certificate,
}
use secure_sshlinux_client.Client.Commands.{enroll, verify_command, status_command, renew, ssh}

-- The command line, parsed.
pub data Command : Type 0 where
  bundle_import : (bundle_path : Text) → Command
  status verify : Command
  enroll_command :
      (profile : Option Text) (principals : Option (List Text)) (ttl : Option Text) → Command
  renew_command :
      (force if_needed : Bool) (profile : Option Text) (principals : Option (List Text)) → Command
  ssh_command : (target : Text) (remote_command : List Text) (skip_renew : Bool) → Command

module _ {S : Type 0} (network : Network S) (codec : Codec) (tools : Tools) (paths : ClientPaths)
    (strptime : Text → Option ℕ) (now : ℕ) (lib : Library) where
  -- The body of the `try` of `main`.
  unfoldable pub run_command : Command → Action S ℤ
  run_command (bundle_import bundle_path) = do
    bundle ← on_files (import_bundle lib codec bundle_path paths)
    print (
        codes "Imported bundle '"
        ++ (bundle.bundle_id ++ (codes "' for broker " ++ bundle.broker_url)))
    lift (returned (pos 0))
  run_command status = status_command network codec tools paths strptime now
  run_command verify = verify_command network codec tools paths
  run_command (enroll_command profile principals ttl) = do
    enroll network codec tools paths profile principals ttl
    lift (returned (pos 0))
  run_command (renew_command force if_needed profile principals) =
      renew network codec tools paths strptime now force if_needed profile principals
  run_command (ssh_command target remote_command skip_renew) =
      ssh network codec tools paths strptime now target remote_command skip_renew

-- How the program ends: with an exit code, or with a traceback.
pub data Ending : Type 0 where
  exited : ℤ → Ending
  traceback : ClientError → Ending

-- The text of an error that `main` catches; the others pass.
unfoldable pub reported : ClientError → Option Text
reported (bundle_error message) = some message
reported (broker_error message) = some message
reported (certificate_error message) = some message
reported (file_not_found path) = some path
reported json_error = none
reported time_error = none
reported unicode_error = none
reported url_error = none
reported ssl_error = none
reported connection_error = none
reported value_error = none
reported os_error = none
reported (missing_key key) = none
reported type_error = none

unfoldable pub end_failed :
    {S : Type 0} → ClientError → Option Text → Machine S → Ending × Machine S
end_failed e none m = (traceback e, m)
end_failed e (some message) m =
    (exited (pos 1), record m { printed = m.printed ++ (codes "ERROR: " ++ message) ∷ [] })

unfoldable pub end_command : {S : Type 0} → Answer ℤ × Machine S → Ending × Machine S
end_command (failed e, m) = end_failed e (reported e) m
end_command (returned code, m) = (exited code, m)

-- `main`, after the command line is parsed and the directories are there.
unfoldable pub main :
    {S : Type 0}
    → Network S
    → Codec
    → Tools
    → ClientPaths
    → (Text → Option ℕ)
    → ℕ
    → Library
    → Command
    → Machine S
    → Ending × Machine S
main network codec tools paths strptime now lib command m =
    end_command (run_command network codec tools paths strptime now lib command m)
