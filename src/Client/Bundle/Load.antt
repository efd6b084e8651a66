-- ===== src/Client/Bundle/Load.antt =====
-- `load_installed_bundle` of src/zfcssh_client/bundle.py. The source takes the values of the file as
-- they are; here one of another type than the import writes is a type error.
use secure_sshlinux_client.Base.{
  Option, none, some, List, [], ◌∷◌, if◌then◌else◌, Text, codes, dict_get,
}
use secure_sshlinux_client.Client.Errors.{
  Answer, failed, returned, ◌>>=◌, bundle_error, missing_key, type_error,
}
use secure_sshlinux_client.Json.{
  Json, null, string, array, object, Items, end_items, item, Members, get_member, has_member,
}
use secure_sshlinux_client.Client.Files.{File, Files, ClientPaths, text_of}
use secure_sshlinux_client.Client.Bundle.{MtlsMaterial, InstalledBundle, Codec}
use secure_sshlinux_client.Client.Bundle.Values.{loaded}

-- `d[key]`
unfoldable pub index : Members → Text → Answer Json
index d key = if has_member key d then returned (get_member key d) else failed (missing_key key)

unfoldable pub as_text : Json → Answer Text
as_text (string s) = returned s
as_text _ = failed type_error

unfoldable pub as_texts : Items → Answer (List Text)
as_texts end_items = returned []
as_texts (item value values) = do s ← as_text value; ss ← as_texts values; returned (s ∷ ss)

unfoldable pub as_list : Json → Answer (List Text)
as_list (array values) = as_texts values
as_list _ = failed type_error

unfoldable pub as_dict : Json → Answer Members
as_dict (object members) = returned members
as_dict _ = failed type_error

-- `Path(value) if value else None`
unfoldable pub as_path : Json → Answer (Option Text)
as_path null = returned none
as_path (string []) = returned none
as_path (string (c ∷ s)) = returned (some (c ∷ s))
as_path _ = failed type_error

-- A text or null.
unfoldable pub as_optional : Json → Answer (Option Text)
as_optional null = returned none
as_optional (string s) = returned (some s)
as_optional _ = failed type_error

unfoldable pub text_at : Members → Text → Answer Text
text_at d key = index d key >>= as_text

unfoldable pub list_at : Members → Text → Answer (List Text)
list_at d key = index d key >>= as_list

unfoldable pub mtls_of : Members → Answer MtlsMaterial
mtls_of d = do
  ca_path ← as_path (get_member (codes "ca_certificate_path") d)
  certificate ← text_at d (codes "client_certificate_path")
  key ← text_at d (codes "client_key_path")
  returned (record {
    client_certificate_path = certificate;
    client_key_path = key;
    ca_certificate_path = ca_path;
  })

unfoldable pub bundle_of : Members → Answer InstalledBundle
bundle_of payload = do
  mtls_payload ← index payload (codes "mtls")
  mtls_members ← as_dict mtls_payload
  mtls ← mtls_of mtls_members
  bundle_id ← text_at payload (codes "bundle_id")
  broker_url ← text_at payload (codes "broker_url")
  host_patterns ← list_at payload (codes "host_patterns")
  default_principals ← list_at payload (codes "default_principals")
  default_profile ← text_at payload (codes "default_profile")
  allowed_profiles ← list_at payload (codes "allowed_profiles")
  key_id ← text_at payload (codes "key_id")
  requester ← text_at payload (codes "requester")
  reason ← as_optional (get_member (codes "reason") payload)
  returned (record {
    bundle_id = bundle_id;
    broker_url = broker_url;
    mtls = mtls;
    host_patterns = host_patterns;
    default_principals = default_principals;
    default_profile = default_profile;
    allowed_profiles = allowed_profiles;
    key_id = key_id;
    requester = requester;
    reason = reason;
  })

module _ (codec : Codec) where
  unfoldable pub load_file : Option File → Answer InstalledBundle
  load_file none =
      failed
        (bundle_error (codes "No bundle imported. Run 'zfcssh bundle import <bundle.json>' first"))
  load_file (some f) = do text ← text_of f; payload ← loaded (codec.loads text); bundle_of payload

  -- `load_installed_bundle`
  unfoldable pub load_installed_bundle : ClientPaths → Files → Answer InstalledBundle
  load_installed_bundle paths files = load_file (dict_get files paths.bundle_metadata_path)
