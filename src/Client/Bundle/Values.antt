-- ===== src/Client/Bundle/Values.antt =====
-- The two halves of `import_bundle` of src/zfcssh_client/bundle.py: what is written before the part
-- `ssh` is looked at, and what is checked and written after it.
use secure_sshlinux_client.Base.{
  Option, none, some, List, [], ◌∷◌, ◌++◌, if◌then◌else◌, contains, Text, codes,
}
use secure_sshlinux_client.Environment.{Library}
use secure_sshlinux_client.Client.Errors.{
  Answer, failed, returned, ◌>>=◌, bundle_error, json_error, type_error,
}
use secure_sshlinux_client.Json.{
  Json, null, string, array, object, end_items, item, Members, end_members, member, get_member,
  truthy, strings, optional,
}
use secure_sshlinux_client.Client.Files.{
  Files, ClientPaths, is_file, read_text, write_text, write_with_mode, next_step, chmod, unlink,
  owner_only,
}
use secure_sshlinux_client.Client.Bundle.{
  InstalledBundle, Codec, required_text, validate_string_list, dict_value, validate_broker_url,
  resolve_pem_value, resolve_optional_pem_value,
}

-- What the first half reads.
pub record Material : Type 0 where
  pub payload : Members
  pub bundle_id : Text
  pub broker_url : Text
  pub client_certificate : Text
  pub client_key : Text
  pub ca_certificate : Option Text

-- `json.loads(...)`, whose result the code takes for a dictionary.
unfoldable pub loaded : Option Json → Answer Members
loaded none = failed json_error
loaded (some (object members)) = returned members
loaded (some _) = failed type_error

unfoldable pub remove_ca : ClientPaths → Files → Answer (Unit {0}) × Files
remove_ca paths files = (
  returned tt,
  if is_file files paths.ca_certificate_path then unlink paths.ca_certificate_path files else files,
)

-- The file of the certificate authority is written, removed or left out.
unfoldable pub write_ca : Codec → ClientPaths → Option Text → Files → Answer (Unit {0}) × Files
write_ca codec paths none = remove_ca paths
write_ca codec paths (some []) = remove_ca paths
write_ca codec paths (some (c ∷ s)) =
    write_with_mode codec.write paths.ca_certificate_path (c ∷ s) owner_only

unfoldable pub ca_path_of : ClientPaths → Option Text → Option Text
ca_path_of paths none = none
ca_path_of paths (some []) = none
ca_path_of paths (some (c ∷ s)) = some paths.ca_certificate_path

unfoldable pub close_material : ClientPaths → Files → Answer (Unit {0}) × Files
close_material paths files = (
  returned tt,
  chmod paths.client_key_path owner_only (chmod paths.client_certificate_path owner_only files),
)

-- The writes of the first half.
unfoldable pub write_material : Codec → ClientPaths → Material → Files → Answer (Unit {0}) × Files
write_material codec paths m files = next_step (write_ca codec paths m.ca_certificate) (
    next_step (close_material paths) (
      next_step (write_text codec.write paths.client_key_path m.client_key)
        (write_text codec.write paths.client_certificate_path m.client_certificate files)))

-- `payload.get("identity") if isinstance(payload.get("identity"), dict) else {}`
unfoldable pub identity_of : Json → Members
identity_of (object members) = members
identity_of _ = end_members

-- `identity or {"requester": bundle_id}`
unfoldable pub identity_or : Members → Text → Members
identity_or end_members bundle_id = member (codes "requester") (string bundle_id) end_members
identity_or (member k v rest) bundle_id = member k v rest

unfoldable pub reason_of : Json → Answer (Option Text)
reason_of null = returned none
reason_of (string s) = returned (some s)
reason_of _ = failed (bundle_error (codes "identity.reason must be a string"))

-- `value or [default_profile]`
unfoldable pub profiles_or : Json → Text → Json
profiles_or value default_profile =
    if truthy value then value else array (item (string default_profile) end_items)

unfoldable pub listed_profile : Text → List Text → Answer (List Text)
listed_profile default_profile allowed_profiles =
    if contains allowed_profiles default_profile
    then returned allowed_profiles
    else failed (bundle_error (codes "ssh.default_profile must be listed in ssh.allowed_profiles"))

module _ (codec : Codec) where
  -- `str(value or bundle_id)`
  unfoldable pub key_id_of : Json → Text → Text
  key_id_of (string []) bundle_id = bundle_id
  key_id_of (string (c ∷ s)) bundle_id = c ∷ s
  key_id_of value bundle_id = if truthy value then codec.str value else bundle_id

  -- The checks of the second half.
  unfoldable pub installed_bundle : ClientPaths → Material → Answer InstalledBundle
  installed_bundle paths m = do
    ssh ← dict_value (codes "ssh must be an object") (get_member (codes "ssh") m.payload)
    host_patterns ←
        validate_string_list (get_member (codes "host_patterns") ssh) (codes "ssh.host_patterns")
    default_principals ←
        validate_string_list (get_member (codes "default_principals") ssh)
          (codes "ssh.default_principals")
    default_profile ← required_text ssh (codes "default_profile") (codes "ssh.")
    profiles ←
        validate_string_list
          (profiles_or (get_member (codes "allowed_profiles") ssh) default_profile)
          (codes "ssh.allowed_profiles")
    allowed_profiles ← listed_profile default_profile profiles
    let identity = identity_of (get_member (codes "identity") m.payload)
    requester ←
        required_text (identity_or identity m.bundle_id) (codes "requester") (codes "identity.")
    reason ← reason_of (get_member (codes "reason") identity)
    returned (record {
      bundle_id = m.bundle_id;
      broker_url = m.broker_url;
      mtls = record {
        client_certificate_path = paths.client_certificate_path;
        client_key_path = paths.client_key_path;
        ca_certificate_path = ca_path_of paths m.ca_certificate;
      };
      host_patterns = host_patterns;
      default_principals = default_principals;
      default_profile = default_profile;
      allowed_profiles = allowed_profiles;
      key_id = key_id_of (get_member (codes "key_id") ssh) m.bundle_id;
      requester = requester;
      reason = reason;
    })

-- `_bundle_to_dict`; `"..." if path else None` of a path that is not empty.
unfoldable pub bundle_to_dict : InstalledBundle → Json
bundle_to_dict b = object (
    member (codes "bundle_id") (string b.bundle_id) (
      member (codes "broker_url") (string b.broker_url) (
        member (codes "mtls")
          (object (
            member (codes "client_certificate_path") (string b.mtls.client_certificate_path) (
              member (codes "client_key_path") (string b.mtls.client_key_path) (
                member (codes "ca_certificate_path") (optional b.mtls.ca_certificate_path)
                  end_members))))
          (member (codes "host_patterns") (array (strings b.host_patterns)) (
            member (codes "default_principals") (array (strings b.default_principals)) (
              member (codes "default_profile") (string b.default_profile) (
                member (codes "allowed_profiles") (array (strings b.allowed_profiles)) (
                  member (codes "key_id") (string b.key_id) (
                    member (codes "requester") (string b.requester)
                      (member (codes "reason") (optional b.reason) end_members))))))))))

module _ (lib : Library) (codec : Codec) where
  -- The checks of the first half.
  unfoldable pub material : Text → Files → Members → Answer Material
  material bundle_path files payload = do
    bundle_id ← required_text payload (codes "bundle_id") []
    url ← required_text payload (codes "broker_url") []
    broker_url ← validate_broker_url lib codec url
    mtls ← dict_value (codes "mtls must be an object") (get_member (codes "mtls") payload)
    certificate ←
        resolve_pem_value lib codec bundle_path files mtls (codes "client_certificate_pem")
          (codes "client_certificate_path")
    key ←
        resolve_pem_value lib codec bundle_path files mtls (codes "client_key_pem")
          (codes "client_key_path")
    ca ←
        resolve_optional_pem_value lib codec bundle_path files mtls (codes "ca_certificate_pem")
          (codes "ca_certificate_path")
    returned (record {
      payload = payload;
      bundle_id = bundle_id;
      broker_url = broker_url;
      client_certificate = certificate;
      client_key = key;
      ca_certificate = ca;
    })

  unfoldable pub read_material : Text → Files → Answer Material
  read_material bundle_path files = do
    text ← read_text files bundle_path
    payload ← loaded (codec.loads text)
    material bundle_path files payload

  abbrev pub ended : InstalledBundle → Answer (Unit {0}) × Files → Answer InstalledBundle × Files
  ended b (failed e, files) = (failed e, files)
  ended b (returned u, files) = (returned b, files)

  -- The last write, after the second half.
  unfoldable pub write_metadata :
      ClientPaths → Answer InstalledBundle → Files → Answer InstalledBundle × Files
  write_metadata paths (failed e) files = (failed e, files)
  write_metadata paths (returned b) files = ended b (
      write_with_mode codec.write paths.bundle_metadata_path
        (codec.dumps (bundle_to_dict b) ++ codes "\n") owner_only files)

  -- The second half runs unless a write of the first has raised.
  unfoldable pub after_material :
      ClientPaths
      → Answer InstalledBundle
      → Answer (Unit {0}) × Files
      → Answer InstalledBundle × Files
  after_material paths made (failed e, files) = (failed e, files)
  after_material paths made (returned u, files) = write_metadata paths made files

  unfoldable pub import_material :
      ClientPaths → Answer Material → Files → Answer InstalledBundle × Files
  import_material paths (failed e) files = (failed e, files)
  import_material paths (returned m) files =
      after_material paths (installed_bundle codec paths m) (write_material codec paths m files)

  unfoldable pub import_bundle : Text → ClientPaths → Files → Answer InstalledBundle × Files
  import_bundle bundle_path paths files =
      import_material paths (read_material bundle_path files) files
