-- ===== src/Client/Keys.antt =====
-- The calls of src/zfcssh_client/certificates.py that reach for commands and files.
pub mod Untouched
use secure_sshlinux_client.Base.{
  ℕ, Bool, true, false, ◌&&◌, Option, none, some, List, [], ◌∷◌, ◌++◌, if◌then◌else◌, Text, codes,
  strip, dict_get, ℤ,
}
use secure_sshlinux_client.Inspection.{CommandRun, missing, value_failed, os_failed, finished}
use secure_sshlinux_client.Client.Errors.{
  Answer, failed, returned, certificate_error, file_not_found, value_error, os_error,
}
use secure_sshlinux_client.Client.Files.{
  File, Files, ClientPaths, WriteEnd, is_file, text_of, next_step, write_with_mode, chmod,
  owner_only, world_readable,
}
use secure_sshlinux_client.Client.Certificates.{CertificateInfo, parse_inspection_output}
use secure_sshlinux_client.Client.KnownHosts.{install_host_ca}

-- The commands of the system: whether the path has one, a run of ssh-keygen that makes files, the
-- listing `ssh-keygen -Lf` of a file of the given text, a run of ssh, with its return code, that takes
-- the terminal, `none` where there is no ssh; and the writing of a text to a path.
pub record Tools : Type 0 where
  pub which : Text → Bool
  pub keygen : List Text → Files → CommandRun × Files
  pub list_file : Text → CommandRun
  pub call : List Text → Files → Option ℤ × Files
  pub write : Text → Text → WriteEnd

-- `paths.user_key_path.with_suffix(".pub")` of a name without a dot.
unfoldable pub public_key_path : ClientPaths → Text
public_key_path paths = paths.user_key_path ++ codes ".pub"

unfoldable pub must_have : Tools → Text → Answer (Unit {0})
must_have tools command =
    if tools.which command
    then returned tt
    else failed (certificate_error (command ++ codes " must be installed and available in PATH"))

unfoldable pub both : Answer (Unit {0}) → Answer (Unit {0}) → Answer (Unit {0})
both (failed e) second = failed e
both (returned u) second = second

-- `ensure_ssh_tools`
unfoldable pub ensure_ssh_tools : Tools → Answer (Unit {0})
ensure_ssh_tools tools = both (must_have tools (codes "ssh")) (must_have tools (codes "ssh-keygen"))

unfoldable pub keygen_arguments : ClientPaths → Text → List Text
keygen_arguments paths comment =
    codes "ssh-keygen"
    ∷ codes "-t"
    ∷ codes "ed25519"
    ∷ codes "-N"
    ∷ []
    ∷ codes "-C"
    ∷ comment
    ∷ codes "-f"
    ∷ paths.user_key_path
    ∷ []

-- `path.chmod(mode)`, also where there is no file.
unfoldable pub chmod_file : Text → ℕ → Files → Answer (Unit {0}) × Files
chmod_file path mode files =
    if is_file files path
    then (returned tt, chmod path mode files)
    else (failed (file_not_found path), files)

unfoldable pub chmod_next : Text → ℕ → Answer (Unit {0}) × Files → Answer (Unit {0}) × Files
chmod_next path mode (failed e, files) = (failed e, files)
chmod_next path mode (returned u, files) = chmod_file path mode files

-- What follows the run of ssh-keygen.
unfoldable pub key_of_run : ClientPaths → CommandRun × Files → Answer (Unit {0}) × Files
key_of_run paths (missing, files) = (failed (file_not_found (codes "ssh-keygen")), files)
key_of_run paths (value_failed, files) = (failed value_error, files)
key_of_run paths (os_failed, files) = (failed os_error, files)
key_of_run paths (finished false out error, files) = (
  failed (certificate_error (codes "ssh-keygen failed to create a user key: " ++ strip error)),
  files,
)
key_of_run paths (finished true out error, files) =
    chmod_next (public_key_path paths) world_readable
      (chmod_file paths.user_key_path owner_only files)

-- `ensure_user_key`; its result is not used.
unfoldable pub ensure_user_key : Tools → ClientPaths → Text → Files → Answer (Unit {0}) × Files
ensure_user_key tools paths comment files =
    if is_file files paths.user_key_path && is_file files (public_key_path paths)
    then (returned tt, files)
    else key_of_run paths (tools.keygen (keygen_arguments paths comment) files)

unfoldable pub public_key_of : Text → Option File → Answer Text
public_key_of path none = failed (certificate_error (codes "Missing public key: " ++ path))
public_key_of path (some f) = stripped (text_of f)
  where
    stripped : Answer Text → Answer Text
    stripped (failed e) = failed e
    stripped (returned text) = returned (strip text)

-- `load_public_key`
unfoldable pub load_public_key : ClientPaths → Files → Answer Text
load_public_key paths files =
    public_key_of (public_key_path paths) (dict_get files (public_key_path paths))

-- `install_user_certificate`
unfoldable pub install_user_certificate :
    Tools → ClientPaths → Text → Files → Answer (Unit {0}) × Files
install_user_certificate tools paths certificate =
    write_with_mode tools.write paths.user_cert_path (strip certificate ++ codes "\n") owner_only

unfoldable pub known_text : Option File → Answer (Option Text)
known_text none = returned none
known_text (some f) = known (text_of f)
  where
    known : Answer Text → Answer (Option Text)
    known (failed e) = failed e
    known (returned text) = returned (some text)

unfoldable pub replace_known_hosts :
    Tools
    → ClientPaths
    → List Text
    → Text
    → Answer (Option Text)
    → Files
    → Answer (Unit {0}) × Files
replace_known_hosts tools paths host_patterns public_key (failed e) files = (failed e, files)
replace_known_hosts tools paths host_patterns public_key (returned known) files =
    write_with_mode tools.write paths.known_hosts_path
      (install_host_ca host_patterns public_key known).1 owner_only files

-- The reading and writing of known_hosts, which is read where it is there.
unfoldable pub write_known_hosts :
    Tools → ClientPaths → List Text → Text → Files → Answer (Unit {0}) × Files
write_known_hosts tools paths host_patterns public_key files =
    replace_known_hosts tools paths host_patterns public_key
      (known_text (dict_get files paths.known_hosts_path)) files

-- The calls of `install_host_ca` on the files: first the file of the host CA, then known_hosts.
unfoldable pub trust_host_ca :
    Tools → ClientPaths → List Text → Text → Files → Answer (Unit {0}) × Files
trust_host_ca tools paths host_patterns public_key files =
    next_step (write_known_hosts tools paths host_patterns public_key) (
      write_with_mode tools.write paths.host_ca_path
        (install_host_ca host_patterns public_key none).0 world_readable files)

unfoldable pub inspected_of_run : CommandRun → Answer (Option CertificateInfo)
inspected_of_run missing = failed (file_not_found (codes "ssh-keygen"))
inspected_of_run value_failed = failed value_error
inspected_of_run os_failed = failed os_error
inspected_of_run (finished false out error) =
    failed (certificate_error (codes "ssh-keygen failed to inspect certificate: " ++ strip error))
inspected_of_run (finished true out error) = parsed (parse_inspection_output out)
  where
    parsed : Answer CertificateInfo → Answer (Option CertificateInfo)
    parsed (failed e) = failed e
    parsed (returned c) = returned (some c)

unfoldable pub installed_certificate : Tools → Option File → Answer (Option CertificateInfo)
installed_certificate tools none = returned none
installed_certificate tools (some f) = inspected_of_run (tools.list_file f.content)

-- `inspect_installed_certificate`
unfoldable pub inspect_installed_certificate :
    Tools → ClientPaths → Files → Answer (Option CertificateInfo)
inspect_installed_certificate tools paths files =
    installed_certificate tools (dict_get files paths.user_cert_path)
