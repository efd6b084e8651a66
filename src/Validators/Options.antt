-- ===== src/Validators/Options.antt =====
-- `validate_extensions`, `validate_critical_options` and `validate_source_address` of
-- app/utils/validators.py.
pub mod Laws
use secure_sshlinux_client.Base.{
  ℕ, Bool, true, false, not, List, [], ◌∷◌, ◌++◌, is_empty, ◌||◌, ◌==◌, if◌then◌else◌, Text, codes,
  text_eq, contains, append_new, strip, split_on, join, sorted, Dict, dict_set,
}
use secure_sshlinux_client.Environment.{Library}
use secure_sshlinux_client.Errors.{
  Result, ok, raised, ◌>>=◌, ◌>>◌, require, Exception, api_error, null, extension_unknown,
  critical_option_unknown, critical_option_invalid,
}
use secure_sshlinux_client.Profiles.{known_extensions, known_critical_option_keys}

abbrev unknown_extension : Text → Exception
unknown_extension ext =
    api_error 422 extension_unknown
      (codes "Unknown SSH extension: "
        ++ ext
        ++ codes ". Allowed: "
        ++ join (codes ", ") (sorted known_extensions))
      null

-- The loop of `validate_extensions`.
unfoldable pub keep_extensions : List Text → List Text → Result (List Text)
keep_extensions normalized [] = ok normalized
keep_extensions normalized (item ∷ items) =
    let ext = strip item in
    let rest = keep_extensions (append_new normalized ext) items in
    if contains known_extensions ext then rest else raised (unknown_extension ext)

unfoldable pub validate_extensions : List Text → Result (List Text)
validate_extensions extensions = keep_extensions [] extensions

abbrev invalid_option : Text → Exception
invalid_option message = api_error 422 critical_option_invalid message null

abbrev unknown_option : Text → Exception
unknown_option key =
    api_error 422 critical_option_unknown
      (codes "Unknown critical option: "
        ++ key
        ++ codes ". Allowed: "
        ++ join (codes ", ") (sorted known_critical_option_keys))
      null

-- `"/" in part`
unfoldable pub contains_slash : Text → Bool
contains_slash [] = false
contains_slash (c ∷ s) = (c == b'/') || contains_slash s

module _ (lib : Library) where
  -- `ip_network` where the part has a slash, `ip_address` where it has none.
  unfoldable pub is_address_part : Text → Bool
  is_address_part part =
      if contains_slash part then lib.is_ip_network part else lib.is_ip_address part

  -- The loop over the parts between commas; empty parts are passed over.
  unfoldable pub check_address_parts : List Text → Result (Unit {0})
  check_address_parts [] = ok tt
  check_address_parts (item ∷ items) =
      let part = strip item in
      let rest = check_address_parts items in
      if is_empty part
      then rest
      else if is_address_part part
      then rest
      else raised (invalid_option (codes "source-address contains invalid CIDR or IP: " ++ part))

  -- `_validate_source_address`
  unfoldable pub check_source_address : Text → Result (Unit {0})
  check_source_address value = do
    require (not (is_empty (strip value)))
        (invalid_option (codes "source-address value must be non-empty"))
    check_address_parts (split_on b',' value)

  unfoldable pub validate_source_address : Text → Result Text
  validate_source_address value = do check_source_address value; ok (strip value)

  -- The check on the value of one known option.
  unfoldable pub check_option : Text → Text → Result (Unit {0})
  check_option key value =
      if text_eq key (codes "source-address")
      then check_source_address value
      else if text_eq key (codes "force-command")
      then require (not (is_empty (strip value)))
          (invalid_option (codes "force-command value must be non-empty"))
      else ok tt

  -- The loop of `validate_critical_options`.
  unfoldable pub keep_options : Dict Text → Dict Text → Result (Dict Text)
  keep_options validated [] = ok validated
  keep_options validated ((raw_key, value) ∷ options) =
      let key = strip raw_key in
      let rest = keep_options (dict_set validated key (strip value)) options in
      if contains known_critical_option_keys key
      then check_option key value >> rest
      else raised (unknown_option key)

  unfoldable pub validate_critical_options : Dict Text → Result (Dict Text)
  validate_critical_options options = keep_options [] options
