-- ===== src/Client/Bundle.antt =====
-- src/zfcssh_client/bundle.py: the import of a bundle and the file that it leaves.
pub mod Values
pub mod Load
pub mod RoundTrip
pub mod Refused
use secure_sshlinux_client.Base.{
  Bool, true, false, not, ◌&&◌, Option, none, some, List, [], ◌∷◌, ◌++◌, if◌then◌else◌, is_empty,
  contains, Text, codes, text_eq, strip, append_new,
}
use secure_sshlinux_client.Environment.{ParsedUrl, Library}
use secure_sshlinux_client.Client.Errors.{
  Answer, failed, returned, ◌>>=◌, bundle_error, json_error, url_error, type_error,
}
use secure_sshlinux_client.Json.{
  Json, null, boolean, number, string, array, object, Items, end_items, item, Members, end_members,
  member, get_member, truthy, strings, optional,
}
use secure_sshlinux_client.Client.Files.{
  File, Files, WriteEnd, ClientPaths, has_file, is_file, read_text, write_with_mode, unlink,
  owner_only,
}

pub record MtlsMaterial : Type 0 where
  pub client_certificate_path : Text
  pub client_key_path : Text
  pub ca_certificate_path : Option Text

pub record InstalledBundle : Type 0 where
  pub bundle_id : Text
  pub broker_url : Text
  pub mtls : MtlsMaterial
  pub host_patterns : List Text
  pub default_principals : List Text
  pub default_profile : Text
  pub allowed_profiles : List Text
  pub key_id : Text
  pub requester : Text
  pub reason : Option Text

-- What the import calls of the system and of Python's library: writing a text to a path, `json.loads`, `json.dumps(_, indent=2)`, `str` of a value
-- that is no text, and `(bundle_path.parent / value).resolve()`.
pub record Codec : Type 0 where
  pub loads : Text → Option Json
  pub dumps : Json → Text
  pub str : Json → Text
  pub resolve : Text → Text → Text
  pub write : Text → Text → WriteEnd

-- A text that is not blank, stripped.
unfoldable pub nonblank : Text → Text → Answer Text
nonblank message s =
    if is_empty (strip s) then failed (bundle_error message) else returned (strip s)

unfoldable pub text_value : Text → Json → Answer Text
text_value message (string s) = nonblank message s
text_value message _ = failed (bundle_error message)

-- `_required_text`
unfoldable pub required_text : Members → Text → Text → Answer Text
required_text payload key prefix =
    text_value (prefix ++ (key ++ codes " is required")) (get_member key payload)

-- The loop of `_validate_string_list`.
unfoldable pub keep_strings : Text → List Text → Items → Answer (List Text)
keep_strings label normalized end_items = returned normalized
keep_strings label normalized (item value values) = do
  stripped ← text_value (label ++ codes " must only contain non-empty strings") value
  keep_strings label (append_new normalized stripped) values

-- `_validate_string_list`
unfoldable pub validate_string_list : Json → Text → Answer (List Text)
validate_string_list (array (item value values)) label = keep_strings label [] (item value values)
validate_string_list _ label = failed (bundle_error (label ++ codes " must be a non-empty array"))

unfoldable pub check_url : Text → Option ParsedUrl → Answer Text
check_url value none = failed url_error
check_url value (some url) =
    if text_eq url.scheme (codes "https") && not (is_empty url.netloc)
    then returned value
    else failed (bundle_error (codes "broker_url must be an https URL"))

-- `isinstance(value, dict)`, or the error.
unfoldable pub dict_value : Text → Json → Answer Members
dict_value message (object members) = returned members
dict_value message _ = failed (bundle_error message)

-- The text of a value that is one and is not blank.
unfoldable pub given_text : Json → Option Text
given_text (string s) = if is_empty (strip s) then none else some s
given_text _ = none

module _ (lib : Library) (codec : Codec) where
  -- `_validate_broker_url`
  unfoldable pub validate_broker_url : Text → Answer Text
  validate_broker_url value = check_url value (lib.urlparse value)

  -- The inline value, the file that the path names, or nothing.
  unfoldable pub pem_of : Text → Files → Option Text → Option Text → Answer (Option Text)
  pem_of bundle_path files (some inline) path_value = returned (some (strip inline ++ codes "\n"))
  pem_of bundle_path files none (some path_value) = do
    text ← read_text files (codec.resolve bundle_path path_value)
    returned (some text)
  pem_of bundle_path files none none = returned none

  -- `_resolve_optional_pem_value`
  unfoldable pub resolve_optional_pem_value :
      Text → Files → Members → Text → Text → Answer (Option Text)
  resolve_optional_pem_value bundle_path files mtls inline_key path_key =
      if truthy (get_member inline_key mtls) && truthy (get_member path_key mtls)
      then failed (
          bundle_error (
            codes "Only one of mtls."
            ++ (inline_key ++ (codes " or mtls." ++ (path_key ++ codes " may be set")))))
      else pem_of bundle_path files (given_text (get_member inline_key mtls))
          (given_text (get_member path_key mtls))

  unfoldable pub required_pem : Text → Text → Option Text → Answer Text
  required_pem inline_key path_key (some pem) = returned pem
  required_pem inline_key path_key none = failed (
      bundle_error (
        codes "One of mtls."
        ++ (inline_key ++ (codes " or mtls." ++ (path_key ++ codes " is required")))))

  -- `_resolve_pem_value`
  unfoldable pub resolve_pem_value : Text → Files → Members → Text → Text → Answer Text
  resolve_pem_value bundle_path files mtls inline_key path_key = do
    pem ← resolve_optional_pem_value bundle_path files mtls inline_key path_key
    required_pem inline_key path_key pem
