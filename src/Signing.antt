-- ===== src/Signing.antt =====
-- `SigningService.sign_certificate` and `_run_ssh_keygen` of app/services/signing.py.
pub mod Command
pub mod Idempotent
pub mod Demo
use secure_sshlinux_client.Base.{
  ℕ, Bool, true, false, not, ◌==◌, Option, none, some, List, [], ◌∷◌, ◌++◌, if◌then◌else◌, is_empty,
  Text, codes, join, strip, Dict, ℤ, pos, show_ℕ,
}
use secure_sshlinux_client.Errors.{
  CertType, user, host, Result, ok, raised, ◌>>=◌, ◌>>◌, require, api_error, null, stderr,
  value_error, os_error, ssh_keygen_not_found, signing_failed, certificate_missing,
}
use secure_sshlinux_client.Profiles.{CertificatePermissions, build_keygen_options}
use secure_sshlinux_client.Settings.{Settings}
use secure_sshlinux_client.Store.{IdempotencyStore, Row, HashPayload, get, put}

-- How a run of ssh-keygen ends: it is not installed, or it exits with a return code, a text on its
-- standard error, and the certificate file, if it wrote one; or the writing of its input, the call
-- itself or the reading of the certificate raises what the code does not catch, a `ValueError` (a NUL
-- in an argument, a text that has no UTF-8 form) or an `OSError` (an argument that is too long).
pub data KeygenRun : Type 0 where
  not_found value_raised os_raised : KeygenRun
  exited : (succeeded : Bool) (stderr : Text) (cert_file : Option Text) → KeygenRun

-- The world at the time of a call: the 31 random bits, the fresh temporary directory, the clock, and
-- what ssh-keygen does when it is given a command line, the text of the public key file and the
-- variables that are added to its environment.
pub record World : Type 0 where
  pub serial : ℕ
  pub temp_dir : Text
  pub now : Text
  pub run : List Text → Text → Dict Text → KeygenRun

-- The arguments of `sign_certificate`.
pub record SignArguments : Type 0 where
  pub cert_type : CertType
  pub key_id : Text
  pub principals : List Text
  pub ttl : Text
  pub public_key : Text
  pub permissions : Option CertificatePermissions

-- `settings.user_ca_private_key if cert_type == "user" else settings.host_ca_private_key`
abbrev pub ca_private_key : CertType → Settings → Text
ca_private_key user settings = settings.user_ca_private_key
ca_private_key host settings = settings.host_ca_private_key

abbrev pub ca_key_passphrase : CertType → Settings → Text
ca_key_passphrase user settings = settings.user_ca_key_passphrase
ca_key_passphrase host settings = settings.host_ca_key_passphrase

-- The flags that depend on the kind of certificate.
unfoldable pub type_flags : CertType → Option CertificatePermissions → List Text
type_flags host permissions = codes "-h" ∷ []
type_flags user none = []
type_flags user (some permissions) = build_keygen_options permissions

unfoldable pub keygen_command : World → Settings → SignArguments → List Text
keygen_command world settings args =
    codes "ssh-keygen"
    ∷ codes "-s"
    ∷ ca_private_key args.cert_type settings
    ∷ codes "-I"
    ∷ args.key_id
    ∷ codes "-n"
    ∷ join (codes ",") args.principals
    ∷ codes "-V"
    ∷ (codes "+" ++ args.ttl)
    ∷ codes "-z"
    ∷ show_ℕ world.serial
    ∷ (type_flags args.cert_type args.permissions
        ++ (world.temp_dir ++ codes "/subject_key.pub") ∷ [])

-- The variables that `env.update` sets, where the CA key has a passphrase.
unfoldable pub askpass_environment : Text → Text → Dict Text
askpass_environment temp_dir [] = []
askpass_environment temp_dir (c ∷ s) =
    (codes "SSH_ASKPASS", temp_dir ++ codes "/askpass.sh")
    ∷ (codes "SSH_ASKPASS_REQUIRE", codes "force")
    ∷ (codes "ZFCS_CA_KEY_PASSPHRASE", c ∷ s)
    ∷ (codes "DISPLAY", codes "broker:0")
    ∷ []

-- What the service makes of the end of a run.
unfoldable pub certificate_of_run : KeygenRun → Result Text
certificate_of_run not_found =
    raised (api_error 500 ssh_keygen_not_found (codes "ssh-keygen is not installed") null)
certificate_of_run value_raised = raised value_error
certificate_of_run os_raised = raised os_error
certificate_of_run (exited false error cert_file) = raised (
    api_error 500 signing_failed (codes "ssh-keygen failed to sign certificate")
      (stderr (strip error)))
certificate_of_run (exited true error none) = raised (
    api_error 500 certificate_missing (codes "Certificate file was not produced by ssh-keygen")
      null)
certificate_of_run (exited true error (some text)) = ok (strip text)

-- `_run_ssh_keygen`
unfoldable pub run_ssh_keygen : World → Settings → SignArguments → Result Text
run_ssh_keygen world settings args = certificate_of_run (
    world.run (keygen_command world settings args) (strip args.public_key ++ codes "\n")
      (askpass_environment world.temp_dir (ca_key_passphrase args.cert_type settings)))

abbrev extensions_of : Option CertificatePermissions → List Text
extensions_of none = []
extensions_of (some p) = p.extensions

abbrev critical_options_of : Option CertificatePermissions → Dict Text
critical_options_of none = []
critical_options_of (some p) = p.critical_options

abbrev pub hash_payload : SignArguments → HashPayload
hash_payload args = record {
  cert_type = args.cert_type;
  key_id = args.key_id;
  principals = args.principals;
  ttl = args.ttl;
  public_key = args.public_key;
  extensions = extensions_of args.permissions;
  critical_options = critical_options_of args.permissions;
}

-- `build_hash` is the section's parameter: the digest of the request's JSON text.
module _ (build_hash : HashPayload → Text) where
  -- The rest of the call, after the run of ssh-keygen.
  unfoldable pub store_certificate :
      World
      → SignArguments
      → IdempotencyStore
      → Result Text
      → Result (Text × Bool) × IdempotencyStore
  store_certificate world args store (raised e) = (raised e, store)
  store_certificate world args store (ok certificate) = (
    ok (certificate, false),
    put (build_hash (hash_payload args)) args.cert_type args.key_id args.principals args.ttl
        certificate world.now store,
  )

  -- The call returns the certificate and whether it was stored already, or raises; the second part is
  -- the store that it leaves.
  unfoldable pub sign_certificate :
      World → Settings → SignArguments → IdempotencyStore → Result (Text × Bool) × IdempotencyStore
  sign_certificate world settings args store = elim (get store (build_hash (hash_payload args))) [
    | some existing ↦ (ok (existing.certificate, true), store)
    | none ↦ store_certificate world args store (run_ssh_keygen world settings args)
  ]
