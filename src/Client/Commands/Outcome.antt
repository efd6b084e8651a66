-- ===== src/Client/Commands/Outcome.antt =====
-- Enrolments that are not allowed, and such that succeed.
use secure_sshlinux_client.Base.{
  ◌≡◌, refl, sym, ap, ◌∙◌, true, false, Option, some, List, ◌++◌, contains, Text, codes, strip,
  dict_get,
}
use secure_sshlinux_client.Client.Errors.{failed, returned, bundle_error}
use secure_sshlinux_client.Client.Files.{Files, ClientPaths, owner_only}
use secure_sshlinux_client.Client.Files.Laws.{write_with_mode-returned}
use secure_sshlinux_client.Client.Machine.Frame.{>>=-reaches, keep_files-returned}
use secure_sshlinux_client.Client.Bundle.{InstalledBundle, Codec}
use secure_sshlinux_client.Client.Bundle.Load.{load_installed_bundle}
use secure_sshlinux_client.Client.Machine.{Machine, ◌>>=◌, on_files, print}
use secure_sshlinux_client.Client.Broker.{Network, SslContext, text_or, request_user_certificate}
use secure_sshlinux_client.Client.Keys.{Tools, load_public_key, install_user_certificate}
use secure_sshlinux_client.Client.Commands.{principals_or, permitted, enroll}

install-dict_get :
    (tools : Tools) (paths : ClientPaths) (certificate : Text) (files : Files) {u : Unit {0}}
    → (install_user_certificate tools paths certificate files).0 ≡ returned u
    → dict_get (install_user_certificate tools paths certificate files).1 paths.user_cert_path
      ≡ some (record {
        content = strip certificate ++ codes "\n";
        mode = some owner_only;
        is_utf8 = true;
      })
unfolding install_user_certificate
install-dict_get tools paths certificate files back =
    write_with_mode-returned tools.write paths.user_cert_path (strip certificate ++ codes "\n")
      owner_only files back

module _ {S : Type 0} (network : Network S) (codec : Codec) (tools : Tools) (paths : ClientPaths)
    (profile : Option Text) (principals : Option (List Text)) (ttl : Option Text) where
  -- A profile that the installed bundle does not allow is refused before any command runs, any file
  -- changes or any request is sent.
  pub enroll-forbidden :
      (m : Machine S) (bundle : InstalledBundle)
      → load_installed_bundle codec paths m.files ≡ returned bundle
      → contains bundle.allowed_profiles (text_or profile bundle.default_profile) ≡ false
      → enroll network codec tools paths profile principals ttl m ≡ (
        failed (
            bundle_error (
              codes "Profile '"
              ++ (text_or profile bundle.default_profile
                  ++ codes "' is not permitted by the imported bundle"))),
        m,
      )
  unfolding enroll ◌>>=◌ permitted
  enroll-forbidden m bundle loaded out = rw (loaded, out) refl

  -- How an enrolment came to what it has installed: the bundle that it loaded, the public key that it
  -- read, the states in which it asked for the certificate and got it, and the certificate that this
  -- request returned.
  pub record IsEnrolled (before after : Machine S) : Type 0 where
    pub bundle : InstalledBundle
    pub context : SslContext
    pub public_key : Text
    pub asked : Machine S
    pub answered : Machine S
    pub certificate : Text
    pub loaded : load_installed_bundle codec paths before.files ≡ returned bundle
    pub allowed : permitted bundle (text_or profile bundle.default_profile) ≡ returned tt
    pub key : load_public_key paths asked.files ≡ returned public_key
    pub signed :
        request_user_certificate network bundle context public_key bundle.key_id
          (principals_or principals bundle.default_principals)
          (text_or profile bundle.default_profile)
          ttl
          asked
        ≡ (returned certificate, answered)
    pub installed :
        dict_get after.files paths.user_cert_path
        ≡ some (record {
          content = strip certificate ++ codes "\n";
          mode = some owner_only;
          is_utf8 = true;
        })

  enrolled :
      (m asked answered after : Machine S) (bundle : InstalledBundle) (context : SslContext)
      (public_key certificate line : Text) {u : Unit {0}}
      → load_installed_bundle codec paths m.files ≡ returned bundle
      → permitted bundle (text_or profile bundle.default_profile) ≡ returned tt
      → load_public_key paths asked.files ≡ returned public_key
      → request_user_certificate network bundle context public_key bundle.key_id
          (principals_or principals bundle.default_principals)
          (text_or profile bundle.default_profile)
          ttl
          asked
        ≡ (returned certificate, answered)
      → on_files (install_user_certificate tools paths certificate) answered ≡ (returned u, after)
      → IsEnrolled m (print line after).1
  enrolled m asked answered after bundle context public_key certificate line loads permits key signs
        installs =
      let (returns, files) =
        keep_files-returned answered
          (install_user_certificate tools paths certificate answered.files) _ after installs in
      record {
        bundle = bundle;
        context = context;
        public_key = public_key;
        asked = asked;
        answered = answered;
        certificate = certificate;
        loaded = loads;
        allowed = permits;
        key = key;
        signed = signs;
        installed =
            ap (λ now. dict_get now paths.user_cert_path) files
            ∙ install-dict_get tools paths certificate answered.files returns;
      }

  -- An enrolment that returns has loaded the bundle, which allows the profile, and has asked the broker for
  -- a certificate for the public key in the client's file, with the key id, the principals and the profile
  -- that the bundle and the options give; and the very certificate that this request returned stands,
  -- stripped and with a line feed, in the file of the user certificate, which only its owner reads and
  -- writes.
  pub enroll-returned :
      (m : Machine S) (u : Unit {0})
      → (enroll network codec tools paths profile principals ttl m).0 ≡ returned u
      → IsEnrolled m (enroll network codec tools paths profile principals ttl m).1
  unfolding enroll
  enroll-returned m u back =
      >>=-reaches (IsEnrolled m) _ _ _ _
        (λ bundle m1 loads. >>=-reaches (IsEnrolled m) _ _ _ _ (λ u m2 permits.
          >>=-reaches (IsEnrolled m) _ _ _ _ (λ u m3 ran.
            >>=-reaches (IsEnrolled m) _ _ _ _ (λ u m4 ran.
              >>=-reaches (IsEnrolled m) _ _ _ _ (λ context m5 ran.
                >>=-reaches (IsEnrolled m) _ _ _ _ (λ host_ca m6 ran.
                  >>=-reaches (IsEnrolled m) _ _ _ _ (λ u m7 ran.
                    >>=-reaches (IsEnrolled m) _ _ _ _ (λ public_key m8 reads.
                      >>=-reaches (IsEnrolled m) _ _ _ _ (λ certificate m9 signs.
                        >>=-reaches (IsEnrolled m) _ _ _ _ (λ u m10 installs printed.
                          enrolled m m8 m9 m10 bundle context public_key certificate _
                            (ap (λ r. r.0) loads) (ap (λ r. r.0) permits)
                            (ap (λ a. load_public_key paths a.files) (sym (ap (λ r. r.1) reads))
                              ∙ ap (λ r. r.0) reads)
                            signs installs))))))))))
        back
