-- ===== src/Tests/Signing.antt =====
-- The theorems on the signing service.
use secure_sshlinux_client.Base.{dict_get}
use secure_sshlinux_client.Store.{put}
use secure_sshlinux_client.Base.{text_eq}
use secure_sshlinux_client.Base.{join}
use secure_sshlinux_client.Base.{dict_set}
use secure_sshlinux_client.Base.{strip}
use secure_sshlinux_client.Signing.{certificate_of_run}
use secure_sshlinux_client.Base.{
  ◌≡◌, refl, Bool, true, false, some, List, [], ◌∷◌, Text, codes, contains,
}
use secure_sshlinux_client.Errors.{user, Result, ok, raised, api_error, signing_failed, stderr}
use secure_sshlinux_client.Settings.{user_allowed_principal_list}
use secure_sshlinux_client.Store.{Row, IdempotencyStore, get}
use secure_sshlinux_client.Signing.{
  SignArguments, keygen_command, run_ssh_keygen, store_certificate, sign_certificate,
}
use secure_sshlinux_client.Signing.Command.{certified_principals, Carries, keygen_command_certifies}
use secure_sshlinux_client.Signing.Idempotent.{
  Call, serve, sign_certificate-Keeps, sign_certificate_forever,
}
use secure_sshlinux_client.Tests.Data.{settings, world, failing_world, key_hash, args}

root_allowed : contains (user_allowed_principal_list settings) (codes "root") ≡ true
unfolding user_allowed_principal_list contains text_eq
root_allowed = refl

keygen_command_certifies_example :
    (certified_principals (keygen_command world settings args) ≡ some (codes "root" ∷ []))
    × Carries world settings args (keygen_command world settings args)
keygen_command_certifies_example =
    keygen_command_certifies world settings args (root_allowed, tt) (λ h. cc)

abbrev signed_row : Row
signed_row = record {
  cert_type = user;
  key_id = codes "k1";
  principals = codes "root";
  ttl = codes "8h";
  certificate = codes "CERT";
  created_at = codes "2024";
}

abbrev signed_store : IdempotencyStore
signed_store = (codes "k1", signed_row) ∷ []

first_signing :
    sign_certificate key_hash world settings args [] ≡ (ok (codes "CERT", false), signed_store)
unfolding sign_certificate get dict_get store_certificate run_ssh_keygen certificate_of_run strip
    put dict_set join
first_signing = refl

abbrev other_args : SignArguments
other_args = record args { key_id = codes "k2" }

abbrev later : List Call
later =
    record { world = failing_world; settings = settings; args = args }
    ∷ record { world = world; settings = settings; args = other_args }
    ∷ []

sign_certificate_forever_example :
    sign_certificate key_hash failing_world settings args (serve key_hash later signed_store)
    ≡ (ok (codes "CERT", true), serve key_hash later signed_store)
sign_certificate_forever_example =
    sign_certificate_forever key_hash (record { world = world; settings = settings; args = args })
      later failing_world settings [] signed_store (codes "CERT") false first_signing

found_row : get signed_store (codes "k1") ≡ some signed_row
unfolding get dict_get text_eq
found_row = refl

sign_certificate-Keeps_example :
    get (sign_certificate key_hash world settings other_args signed_store).1 (codes "k1")
    ≡ some signed_row
sign_certificate-Keeps_example =
    sign_certificate-Keeps key_hash world settings other_args signed_store (codes "k1") signed_row
      found_row

abbrev failed : Result (Text × Bool)
failed = raised (
    api_error 500 signing_failed (codes "ssh-keygen failed to sign certificate")
      (stderr (codes "bad")))

failed_signing :
    (sign_certificate key_hash failing_world settings other_args signed_store).0 ≡ failed
unfolding sign_certificate get dict_get text_eq store_certificate run_ssh_keygen certificate_of_run
    strip
failed_signing = refl
