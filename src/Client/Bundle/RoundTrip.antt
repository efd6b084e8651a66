-- ===== src/Client/Bundle/RoundTrip.antt =====
-- Loading the bundle that was imported.
use secure_sshlinux_client.Base.{
  ◌≡◌, ◌≢◌, refl, sym, ap, true, dict_get, ◌∙◌, subst, Option, none, some, List, [], ◌∷◌, ◌++◌,
  Text, codes, text_eq,
}
use secure_sshlinux_client.Environment.{Library}
use secure_sshlinux_client.Client.Errors.{Answer, failed, returned, ◌>>=◌, Gives, >>=-Gives}
use secure_sshlinux_client.Json.{strings, get_member, has_member, optional}
use secure_sshlinux_client.Client.Files.{
  File, Files, ClientPaths, default_paths, owner_only, universal_newlines, text_of, write_with_mode,
}
use secure_sshlinux_client.Client.Files.Laws.{write_with_mode-returned}
use secure_sshlinux_client.Client.Bundle.{
  InstalledBundle, Codec, dict_value, required_text, validate_string_list,
}
use secure_sshlinux_client.Client.Bundle.Values.{
  identity_of, identity_or, reason_of, profiles_or, listed_profile, Material, loaded, ca_path_of,
  installed_bundle, bundle_to_dict, read_material, write_material, ended, write_metadata,
  after_material, import_material, import_bundle,
}
use secure_sshlinux_client.Client.Bundle.Load.{
  index, as_text, as_texts, as_list, as_dict, as_path, as_optional, text_at, list_at, mtls_of,
  bundle_of, load_file, load_installed_bundle,
}

as_texts-strings : (ss : List Text) → as_texts (strings ss) ≡ returned ss
unfolding as_texts strings as_text
as_texts-strings [] = refl
as_texts-strings (s ∷ ss) = rw (as_texts-strings ss) refl

-- The path of the certificate authority is missing or is no empty text.
abbrev IsPath : Option Text → Type 0
IsPath none = Unit
IsPath (some p) = p ≢ []

as_path-optional : (p : Option Text) → IsPath p → as_path (optional p) ≡ returned p
unfolding as_path
as_path-optional none h = refl
as_path-optional (some []) h = absurd (h refl)
as_path-optional (some (c ∷ s)) h = refl

as_optional-optional : (r : Option Text) → as_optional (optional r) ≡ returned r
unfolding as_optional
as_optional-optional none = refl
as_optional-optional (some s) = refl

-- A bundle is read back from its dictionary.
bundle_of-bundle_to_dict :
    (b : InstalledBundle)
    → IsPath b.mtls.ca_certificate_path
    → (loaded (some (bundle_to_dict b)) >>= bundle_of) ≡ returned b
unfolding loaded bundle_to_dict bundle_of mtls_of text_at list_at index as_text as_list as_dict
    get_member has_member text_eq
bundle_of-bundle_to_dict b h =
    rw
      (
        as_path-optional b.mtls.ca_certificate_path h,
        as_optional-optional b.reason,
        as_texts-strings b.host_patterns,
        as_texts-strings b.default_principals,
        as_texts-strings b.allowed_profiles,
      )
      refl

ca_path_of-IsPath : (home : Text) (ca : Option Text) → IsPath (ca_path_of (default_paths home) ca)
unfolding ca_path_of
ca_path_of-IsPath home none = tt
ca_path_of-IsPath home (some []) = tt
ca_path_of-IsPath [] (some (c ∷ s)) = cc
ca_path_of-IsPath (h ∷ home) (some (c ∷ s)) = cc

-- The installed bundle names the path that the first half wrote the authority to.
NamesCa : ClientPaths → Material → InstalledBundle → Type 0
NamesCa paths m b = b.mtls.ca_certificate_path ≡ ca_path_of paths m.ca_certificate

installed_bundle-NamesCa :
    (codec : Codec) (paths : ClientPaths) (m : Material)
    → Gives (NamesCa paths m) (installed_bundle codec paths m)
unfolding installed_bundle NamesCa
installed_bundle-NamesCa codec paths m =
    let identity = identity_of (get_member (codes "identity") m.payload) in
    >>=-Gives (NamesCa paths m)
      (dict_value (codes "ssh must be an object") (get_member (codes "ssh") m.payload)) _
      (λ ssh.
        >>=-Gives (NamesCa paths m)
          (validate_string_list (get_member (codes "host_patterns") ssh)
            (codes "ssh.host_patterns"))
          _
          (λ hosts.
            >>=-Gives (NamesCa paths m)
              (validate_string_list (get_member (codes "default_principals") ssh)
                (codes "ssh.default_principals"))
              _
              (λ principals.
                >>=-Gives (NamesCa paths m)
                  (required_text ssh (codes "default_profile") (codes "ssh.")) _
                  (λ profile.
                    >>=-Gives (NamesCa paths m)
                      (validate_string_list
                        (profiles_or (get_member (codes "allowed_profiles") ssh) profile)
                        (codes "ssh.allowed_profiles"))
                      _
                      (λ profiles.
                        >>=-Gives (NamesCa paths m) (listed_profile profile profiles) _ (λ allowed.
                          >>=-Gives (NamesCa paths m)
                            (required_text (identity_or identity m.bundle_id) (codes "requester")
                              (codes "identity."))
                            _
                            (λ requester.
                              >>=-Gives (NamesCa paths m)
                                (reason_of (get_member (codes "reason") identity)) _
                                (λ reason. refl))))))))

module _ (lib : Library) (codec : Codec) where
  -- The JSON library reads back the dictionary of the bundle that it has dumped, as the text is read.
  abbrev pub ReadsBack : InstalledBundle → Type 0
  ReadsBack b =
      codec.loads (universal_newlines (codec.dumps (bundle_to_dict b) ++ codes "\n"))
      ≡ some (bundle_to_dict b)

  -- Where the file of the bundle holds its dumped dictionary, loading returns the bundle.
  loaded-bundle :
      (paths : ClientPaths) (b : InstalledBundle) (files : Files)
      → IsPath b.mtls.ca_certificate_path
      → ReadsBack b
      → dict_get files paths.bundle_metadata_path
        ≡ some (record {
          content = codec.dumps (bundle_to_dict b) ++ codes "\n";
          mode = some owner_only;
          is_utf8 = true;
        })
      → load_installed_bundle codec paths files ≡ returned b
  unfolding load_installed_bundle load_file text_of
  loaded-bundle paths b files h r there = rw (there, r) (bundle_of-bundle_to_dict b h)

  ended-dict_get :
      (paths : ClientPaths) (b x : InstalledBundle) (r : Answer (Unit {0}) × Files)
      (P : Option File → Type 0)
      → (ended lib codec b r).0 ≡ returned x
      → ((u : Unit {0}) → r.0 ≡ returned u → P (dict_get r.1 paths.bundle_metadata_path))
      → (b ≡ x) × P (dict_get (ended lib codec b r).1 paths.bundle_metadata_path)
  ended-dict_get paths b x (failed e, files) P h k = cc h
  ended-dict_get paths b x (returned u, files) P h k = (cc h, k u refl)

  imported-load :
      (home : Text) (m : Material) (made : Answer InstalledBundle) (files : Files)
      (b : InstalledBundle)
      → Gives (NamesCa (default_paths home) m) made
      → (write_metadata lib codec (default_paths home) made files).0 ≡ returned b
      → ReadsBack b
      → load_installed_bundle codec
          (default_paths home)
          (write_metadata lib codec (default_paths home) made files).1
        ≡ returned b
  unfolding write_metadata NamesCa
  imported-load home m (failed e) files b g h r = cc
  imported-load home m (returned b2) files b g h r =
      let path = (default_paths home).bundle_metadata_path in
      let text = codec.dumps (bundle_to_dict b2) ++ codes "\n" in
      let (same, there) =
        ended-dict_get (default_paths home) b2 b
          (write_with_mode codec.write path text owner_only files)
          (λ f. f ≡ some (record { content = text; mode = some owner_only; is_utf8 = true })) h
          (λ u back. write_with_mode-returned codec.write path text owner_only files back) in
      loaded-bundle (default_paths home) b2 _
        (subst IsPath (sym g) (ca_path_of-IsPath home m.ca_certificate))
        (subst ReadsBack (sym same) r) there
      ∙ ap returned same

  after_material-load :
      (home : Text) (m : Material) (r : Answer (Unit {0}) × Files) (b : InstalledBundle)
      → (after_material lib codec
          (default_paths home)
          (installed_bundle codec (default_paths home) m)
          r).0
        ≡ returned b
      → ReadsBack b
      → load_installed_bundle codec
          (default_paths home)
          (after_material lib codec
            (default_paths home)
            (installed_bundle codec (default_paths home) m)
            r).1
        ≡ returned b
  unfolding after_material
  after_material-load home m (failed e, files) b h r = cc
  after_material-load home m (returned u, files) b h r =
      imported-load home m (installed_bundle codec (default_paths home) m) files b
        (installed_bundle-NamesCa codec (default_paths home) m) h r

  import_material-load :
      (home : Text) (first : Answer Material) (files : Files) (b : InstalledBundle)
      → (import_material lib codec (default_paths home) first files).0 ≡ returned b
      → ReadsBack b
      → load_installed_bundle codec
          (default_paths home)
          (import_material lib codec (default_paths home) first files).1
        ≡ returned b
  unfolding import_material
  import_material-load home (failed e) files b h r = cc
  import_material-load home (returned m) files b h r =
      after_material-load home m (write_material codec (default_paths home) m files) b h r

  -- When an import returns a bundle, and reading the text that it dumps gives the dumped dictionary back,
  -- then loading the installed bundle right after returns this very bundle.
  pub import_bundle-load_installed_bundle :
      (home bundle_path : Text) (files : Files) (b : InstalledBundle)
      → (import_bundle lib codec bundle_path (default_paths home) files).0 ≡ returned b
      → ReadsBack b
      → load_installed_bundle codec
          (default_paths home)
          (import_bundle lib codec bundle_path (default_paths home) files).1
        ≡ returned b
  unfolding import_bundle
  import_bundle-load_installed_bundle home bundle_path files b h r =
      import_material-load home (read_material lib codec bundle_path files) files b h r
