-- ===== src/Client/Bundle/Refused.antt =====
-- What a refused import leaves of the bundle that was installed before.
use secure_sshlinux_client.Base.{
  ◌≡◌, refl, ap, ◌∙◌, Bool, if◌then◌else◌, true, false, Option, none, some, [], ◌∷◌, ◌++◌, ◌⊎◌, inl,
  inr, Text, codes, text_eq, dict_get,
}
use secure_sshlinux_client.Environment.{Library}
use secure_sshlinux_client.Client.Errors.{ClientError, Answer, failed, returned}
use secure_sshlinux_client.Client.Files.{
  File, Files, broken, write_with_mode, owner_only, unlink, default_paths, is_file,
}
use secure_sshlinux_client.Client.Files.Laws.{
  Spares, next_step-dict_get, dict_get-chmod, write_text-Spares, write_with_mode-Spares,
  write_with_mode-failed, dict_get-unlink, text_eq-append,
}
use secure_sshlinux_client.Client.Bundle.{InstalledBundle, Codec}
use secure_sshlinux_client.Client.Bundle.Values.{
  Material, remove_ca, write_ca, close_material, write_material, installed_bundle, bundle_to_dict,
  read_material, ended, write_metadata, after_material, import_material, import_bundle,
}

unlink_ca-dict_get :
    (home : Text) (there : Bool) (files : Files)
    → dict_get
        (if there then unlink (default_paths home).ca_certificate_path files else files)
        (default_paths home).bundle_metadata_path
      ≡ dict_get files (default_paths home).bundle_metadata_path
unfolding text_eq
unlink_ca-dict_get home true files = rw (dict_get-unlink, text_eq-append) refl
unlink_ca-dict_get home false files = refl

remove_ca-Spares :
    (home : Text)
    → Spares (default_paths home).bundle_metadata_path (remove_ca (default_paths home))
unfolding remove_ca
remove_ca-Spares home files =
    unlink_ca-dict_get home (is_file files (default_paths home).ca_certificate_path) files

not_ca :
    (home : Text)
    → text_eq (default_paths home).ca_certificate_path (default_paths home).bundle_metadata_path
      ≡ false
unfolding text_eq
not_ca home = text_eq-append home _ _

not_certificate :
    (home : Text)
    → text_eq (default_paths home).client_certificate_path (default_paths home).bundle_metadata_path
      ≡ false
unfolding text_eq
not_certificate home = text_eq-append home _ _

not_key :
    (home : Text)
    → text_eq (default_paths home).client_key_path (default_paths home).bundle_metadata_path ≡ false
unfolding text_eq
not_key home = text_eq-append home _ _

module _ (codec : Codec) (home : Text) where
  write_ca-Spares :
      (ca : Option Text)
      → Spares (default_paths home).bundle_metadata_path (write_ca codec (default_paths home) ca)
  unfolding write_ca
  write_ca-Spares none = remove_ca-Spares home
  write_ca-Spares (some []) = remove_ca-Spares home
  write_ca-Spares (some (c ∷ s)) =
      write_with_mode-Spares codec.write (default_paths home).ca_certificate_path (c ∷ s) owner_only
        _ (not_ca home)

  close_material-Spares :
      Spares (default_paths home).bundle_metadata_path (close_material (default_paths home))
  unfolding close_material
  close_material-Spares files =
      dict_get-chmod (default_paths home).client_key_path owner_only _ _ (not_key home)
      ∙ dict_get-chmod (default_paths home).client_certificate_path owner_only files _
          (not_certificate home)

  write_material-Spares :
      (m : Material)
      → Spares
          (default_paths home).bundle_metadata_path
          (write_material codec (default_paths home) m)
  unfolding write_material
  write_material-Spares m files =
      next_step-dict_get _ _ _ (write_ca-Spares m.ca_certificate)
      ∙ next_step-dict_get _ _ _ close_material-Spares
      ∙ next_step-dict_get _ _ _ (
          write_text-Spares codec.write (default_paths home).client_key_path m.client_key _
            (not_key home))
      ∙ write_text-Spares codec.write (default_paths home).client_certificate_path
          m.client_certificate _ (not_certificate home) files

module _ (lib : Library) (codec : Codec) where
  -- The file of the bundle is as before, or the system broke its very write off, with this error.
  abbrev pub KeptBundle : Text → Files → ClientError → Files → Type 0
  KeptBundle home before e after =
      (dict_get after (default_paths home).bundle_metadata_path
        ≡ dict_get before (default_paths home).bundle_metadata_path)
      ⊎ ((b : InstalledBundle) × (left : File) × (codec.write
              (default_paths home).bundle_metadata_path
              (codec.dumps (bundle_to_dict b) ++ codes "\n")
            ≡ broken e (some left)))

  ended-failed :
      (b : InstalledBundle) (r : Answer (Unit {0}) × Files) (e : ClientError)
      → (ended lib codec b r).0 ≡ failed e
      → (r.0 ≡ failed e) × ((ended lib codec b r).1 ≡ r.1)
  ended-failed b (failed e2, files) e h = let same : e2 ≡ e = cc in (ap failed same, refl)
  ended-failed b (returned u, files) e h = cc h

  write_metadata-failed :
      (home : Text) (made : Answer InstalledBundle) (files : Files) (e : ClientError)
      → (write_metadata lib codec (default_paths home) made files).0 ≡ failed e
      → KeptBundle home files e (write_metadata lib codec (default_paths home) made files).1
  unfolding write_metadata
  write_metadata-failed home (failed e2) files e h = inl refl
  write_metadata-failed home (returned b) files e h =
      let path = (default_paths home).bundle_metadata_path in
      let text = codec.dumps (bundle_to_dict b) ++ codes "\n" in
      let (raised, same) =
        ended-failed b (write_with_mode codec.write path text owner_only files) e h in
      elim (write_with_mode-failed codec.write path text owner_only files e raised) [
        | inl kept ↦ inl (ap (λ now. dict_get now path) same ∙ kept)
        | inr (left, cut) ↦ inr (b, left, cut)
      ]

  after_material-failed :
      (home : Text) (made : Answer InstalledBundle) (files : Files) (r : Answer (Unit {0}) × Files)
      (e : ClientError)
      → dict_get r.1 (default_paths home).bundle_metadata_path
        ≡ dict_get files (default_paths home).bundle_metadata_path
      → (after_material lib codec (default_paths home) made r).0 ≡ failed e
      → KeptBundle home files e (after_material lib codec (default_paths home) made r).1
  unfolding after_material
  after_material-failed home made files (failed e2, now) e k h = inl k
  after_material-failed home made files (returned u, now) e k h =
      elim (write_metadata-failed home made now e h) [
        | inl kept ↦ inl (kept ∙ k)
        | inr cut ↦ inr cut
      ]

  import_material-failed :
      (home : Text) (first : Answer Material) (files : Files) (e : ClientError)
      → (import_material lib codec (default_paths home) first files).0 ≡ failed e
      → KeptBundle home files e (import_material lib codec (default_paths home) first files).1
  unfolding import_material
  import_material-failed home (failed e2) files e h = inl refl
  import_material-failed home (returned m) files e h =
      after_material-failed home (installed_bundle codec (default_paths home) m) files
        (write_material codec (default_paths home) m files) e
        (write_material-Spares codec home m files) h

  -- An import into the default paths of a home directory that fails leaves the file of the installed
  -- bundle as it was, unless the error is the one with which the system broke off the last write, of
  -- this very file.
  pub import_bundle-failed :
      (home bundle_path : Text) (files : Files) (e : ClientError)
      → (import_bundle lib codec bundle_path (default_paths home) files).0 ≡ failed e
      → KeptBundle home files e (import_bundle lib codec bundle_path (default_paths home) files).1
  unfolding import_bundle
  import_bundle-failed home bundle_path files e h =
      import_material-failed home (read_material lib codec bundle_path files) files e h
