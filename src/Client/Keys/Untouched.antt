-- ===== src/Client/Keys/Untouched.antt =====
-- Which files the calls of src/zfcssh_client/certificates.py leave alone.
use secure_sshlinux_client.Base.{
  ℕ, ◌≡◌, refl, subst, ◌∙◌, ◌⊎◌, ◌++◌, text_eq_iff, codes, strip, true, false, ◌&&◌, Option, some,
  List, Bool-cases, inl, inr, Text, text_eq, dict_get,
}
use secure_sshlinux_client.Inspection.{CommandRun, missing, value_failed, os_failed, finished}
use secure_sshlinux_client.Client.Errors.{ClientError, Answer, failed, returned}
use secure_sshlinux_client.Client.Files.{
  File, Files, ClientPaths, broken, write_with_mode, is_file, chmod, owner_only, world_readable,
}
use secure_sshlinux_client.Client.Files.Laws.{
  Spares, dict_get-set_mode, next_step-dict_get, write_with_mode-Spares, write_with_mode-failed,
}
use secure_sshlinux_client.Client.Machine.Frame.{}
use secure_sshlinux_client.Client.Machine.{}
use secure_sshlinux_client.Client.Broker.{}
use secure_sshlinux_client.Client.Keys.{
  Tools, public_key_path, keygen_arguments, chmod_file, chmod_next, key_of_run, ensure_user_key,
  known_text, replace_known_hosts, write_known_hosts, trust_host_ca, install_user_certificate,
}

-- The path is none of the four that an enrolment writes before it has a certificate.
pub record IsOther (paths : ClientPaths) (k : Text) : Type 0 where
  pub no_key : text_eq paths.user_key_path k ≡ false
  pub no_public_key : text_eq (public_key_path paths) k ≡ false
  pub no_host_ca : text_eq paths.host_ca_path k ≡ false
  pub no_known_hosts : text_eq paths.known_hosts_path k ≡ false

-- `ssh-keygen -f FILE` writes FILE and FILE.pub only.
abbrev pub WritesKeyOnly : Tools → ClientPaths → Type 0
WritesKeyOnly tools paths =
    (comment : Text) (files : Files) (k : Text)
    → text_eq paths.user_key_path k ≡ false
    → text_eq (public_key_path paths) k ≡ false
    → dict_get (tools.keygen (keygen_arguments paths comment) files).1 k ≡ dict_get files k

chmod_file-dict_get :
    (path : Text) (mode : ℕ) (files : Files) (k : Text)
    → text_eq path k ≡ false
    → dict_get (chmod_file path mode files).1 k ≡ dict_get files k
unfolding chmod_file chmod
chmod_file-dict_get path mode files k h = elim (Bool-cases (is_file files path)) [
  | inl e ↦ rw e (dict_get-set_mode path mode (dict_get files path) files k h)
  | inr e ↦ rw e refl
]

chmod_next-dict_get :
    (path : Text) (mode : ℕ) (first : Answer (Unit {0}) × Files) (k : Text)
    → text_eq path k ≡ false
    → dict_get (chmod_next path mode first).1 k ≡ dict_get first.1 k
unfolding chmod_next
chmod_next-dict_get path mode (failed e, files) k h = refl
chmod_next-dict_get path mode (returned u, files) k h = chmod_file-dict_get path mode files k h

key_of_run-dict_get :
    (paths : ClientPaths) (run : CommandRun × Files) (k : Text)
    → IsOther paths k
    → dict_get (key_of_run paths run).1 k ≡ dict_get run.1 k
unfolding key_of_run
key_of_run-dict_get paths (missing, files) k h = refl
key_of_run-dict_get paths (value_failed, files) k h = refl
key_of_run-dict_get paths (os_failed, files) k h = refl
key_of_run-dict_get paths (finished false out error, files) k h = refl
key_of_run-dict_get paths (finished true out error, files) k h =
    chmod_next-dict_get (public_key_path paths) world_readable
      (chmod_file paths.user_key_path owner_only files) k h.no_public_key
    ∙ chmod_file-dict_get paths.user_key_path owner_only files k h.no_key

pub ensure_user_key-dict_get :
    (tools : Tools) (paths : ClientPaths) (comment : Text) (files : Files) (k : Text)
    → WritesKeyOnly tools paths
    → IsOther paths k
    → dict_get (ensure_user_key tools paths comment files).1 k ≡ dict_get files k
unfolding ensure_user_key
ensure_user_key-dict_get tools paths comment files k w h =
    elim (Bool-cases (is_file files paths.user_key_path && is_file files (public_key_path paths))) [
      | inl e ↦ rw e refl
      | inr e ↦ rw e (
          key_of_run-dict_get paths (tools.keygen (keygen_arguments paths comment) files) k h
          ∙ w comment files k h.no_key h.no_public_key)
    ]

replace_known_hosts-Spares :
    (tools : Tools) (paths : ClientPaths) (host_patterns : List Text) (public_key k : Text)
    (known : Answer (Option Text))
    → text_eq paths.known_hosts_path k ≡ false
    → Spares k (replace_known_hosts tools paths host_patterns public_key known)
unfolding replace_known_hosts
replace_known_hosts-Spares tools paths host_patterns public_key k (failed e) h files = refl
replace_known_hosts-Spares tools paths host_patterns public_key k (returned known) h files =
    write_with_mode-Spares tools.write paths.known_hosts_path _ owner_only k h files

pub trust_host_ca-dict_get :
    (tools : Tools) (paths : ClientPaths) (host_patterns : List Text) (public_key k : Text)
    → text_eq paths.host_ca_path k ≡ false
    → text_eq paths.known_hosts_path k ≡ false
    → Spares k (trust_host_ca tools paths host_patterns public_key)
unfolding trust_host_ca write_known_hosts
trust_host_ca-dict_get tools paths host_patterns public_key k a b files =
    next_step-dict_get k _ _ (λ now.
      replace_known_hosts-Spares tools paths host_patterns public_key k
        (known_text (dict_get now paths.known_hosts_path)) b now)
    ∙ write_with_mode-Spares tools.write paths.host_ca_path _ world_readable k a files

-- The system broke off the writing of a certificate into this very file, and left it cut short.
abbrev pub BreaksCertificate : Tools → ClientPaths → Text → ClientError → Type 0
BreaksCertificate tools paths k e =
    (text_eq paths.user_cert_path k ≡ true)
    × ((certificate : Text) × (left : File) × (tools.write paths.user_cert_path
            (strip certificate ++ codes "\n")
          ≡ broken e (some left)))

pub install-failed :
    (tools : Tools) (paths : ClientPaths) (certificate k : Text) (files : Files) (e : ClientError)
    → (install_user_certificate tools paths certificate files).0 ≡ failed e
    → (dict_get (install_user_certificate tools paths certificate files).1 k ≡ dict_get files k)
      ⊎ BreaksCertificate tools paths k e
unfolding install_user_certificate
install-failed tools paths certificate k files e raised =
    let text = strip certificate ++ codes "\n" in
    elim (Bool-cases (text_eq paths.user_cert_path k)) [
      | inr other ↦
          inl
            (write_with_mode-Spares tools.write paths.user_cert_path text owner_only k other files)
      | inl this ↦
          elim (write_with_mode-failed tools.write paths.user_cert_path text owner_only files e
            raised) [
              | inl kept ↦
                  let same : paths.user_cert_path ≡ k = (text_eq_iff _ _).0 this in
                  inl (
                    subst
                      (λ p.
                        dict_get
                          (write_with_mode tools.write paths.user_cert_path text owner_only files).1
                          p
                        ≡ dict_get files p)
                      same kept)
              | inr (left, cut) ↦ inr (this, (certificate, left, cut))
            ]
    ]
