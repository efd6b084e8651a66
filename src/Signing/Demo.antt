-- ===== src/Signing/Demo.antt =====
-- The demo keys of `SigningService` of app/services/signing.py.
use secure_sshlinux_client.Base.{true, false, none, some, List, [], ◌∷◌, ◌++◌, Text, codes, strip}
use secure_sshlinux_client.Errors.{
  CertType, user, host, Result, ok, raised, value_error, os_error, api_error, null, stderr,
  ssh_keygen_not_found, demo_keygen_failed,
}
use secure_sshlinux_client.Schemas.{DemoPublicKeyResponse}
use secure_sshlinux_client.Signing.{KeygenRun, not_found, value_raised, os_raised, exited}

unfoldable pub demo_command : Text → Text → List Text
demo_command key_path comment =
    codes "ssh-keygen"
    ∷ codes "-t"
    ∷ codes "ed25519"
    ∷ codes "-N"
    ∷ []
    ∷ codes "-C"
    ∷ comment
    ∷ codes "-f"
    ∷ key_path
    ∷ []

-- What both calls make of the run; the file is the one of the public key.
unfoldable pub demo_of_run : CertType → Text → Text → KeygenRun → Result DemoPublicKeyResponse
demo_of_run key_type comment message not_found =
    raised (api_error 500 ssh_keygen_not_found (codes "ssh-keygen is not installed") null)
demo_of_run key_type comment message value_raised = raised value_error
demo_of_run key_type comment message os_raised = raised os_error
demo_of_run key_type comment message (exited false error file) =
    raised (api_error 500 demo_keygen_failed message (stderr (strip error)))
demo_of_run key_type comment message (exited true error none) = raised os_error
demo_of_run key_type comment message (exited true error (some text)) =
    ok (record { key_type = key_type; public_key = strip text; comment = comment })

module _ (run : List Text → KeygenRun) (temp_dir : Text) where
  unfoldable pub generate_demo_public_key : Text → Result DemoPublicKeyResponse
  generate_demo_public_key comment =
      demo_of_run user comment (codes "ssh-keygen failed to generate a demo public key")
        (run (demo_command (temp_dir ++ codes "/demo_ed25519") comment))

  unfoldable pub generate_demo_host_public_key : Text → Result DemoPublicKeyResponse
  generate_demo_host_public_key comment =
      demo_of_run host comment (codes "ssh-keygen failed to generate a demo host public key")
        (run (demo_command (temp_dir ++ codes "/demo_host_ed25519") comment))
