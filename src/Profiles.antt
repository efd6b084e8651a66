-- ===== src/Profiles.antt =====
-- app/services/extension_profiles.py: the known extensions and critical options, the built-in
-- lifecycle profiles, the table of roles, and the functions that resolve a profile, check a role and
-- build the flags of ssh-keygen. The proofs are in the modules below.
pub mod Access
pub mod Resolve
pub mod Flags
use secure_sshlinux_client.Base.{
  Bool, Option, none, some, List, [], ◌∷◌, ◌++◌, Text, codes, text_eq, contains, join, sorted, Dict,
  dict_get, dict_set, keys, is_empty, if◌then◌else◌,
}
use secure_sshlinux_client.Errors.{
  Result, ok, raised, ◌>>=◌, ◌>>◌, require, api_error, null, key_error, profile_unknown,
  profile_forbidden,
}

abbrev pub known_extensions : List Text
known_extensions =
    codes "permit-pty"
    ∷ codes "permit-port-forwarding"
    ∷ codes "permit-agent-forwarding"
    ∷ codes "permit-X11-forwarding"
    ∷ codes "permit-user-rc"
    ∷ codes "no-touch-required"
    ∷ []

abbrev pub known_critical_option_keys : List Text
known_critical_option_keys =
    codes "force-command" ∷ codes "source-address" ∷ codes "verify-required" ∷ []

pub record CertificatePermissions : Type 0 where
  pub extensions : List Text
  pub critical_options : Dict Text

abbrev pub builtin_profiles : Dict CertificatePermissions
builtin_profiles =
    (codes "zf_production", record { extensions = codes "permit-pty" ∷ []; critical_options = [] })
    ∷ (
      codes "development",
      record {
        extensions =
            codes "permit-pty"
            ∷ codes "permit-port-forwarding"
            ∷ codes "permit-agent-forwarding"
            ∷ [];
        critical_options = [];
      },
    )
    ∷ (
      codes "oem_production",
      record { extensions = codes "permit-pty" ∷ []; critical_options = [] },
    )
    ∷ (
      codes "field_operation",
      record {
        extensions = codes "permit-pty" ∷ codes "permit-port-forwarding" ∷ [];
        critical_options = [];
      },
    )
    ∷ (
      codes "claims_warranty",
      record { extensions = codes "permit-pty" ∷ []; critical_options = [] },
    )
    ∷ (codes "end_of_life", record { extensions = codes "permit-pty" ∷ []; critical_options = [] })
    ∷ []

abbrev pub profile_names : List Text
profile_names = keys builtin_profiles ++ codes "custom" ∷ []

abbrev pub role_allowed_profiles : Dict (List Text)
role_allowed_profiles =
    (codes "dev", codes "development" ∷ codes "zf_production" ∷ [])
    ∷ (
      codes "prod",
      codes "zf_production"
          ∷ codes "oem_production"
          ∷ codes "field_operation"
          ∷ codes "end_of_life"
          ∷ [],
    )
    ∷ (codes "claims", codes "claims_warranty" ∷ codes "field_operation" ∷ [])
    ∷ (codes "OEMprod", codes "oem_production" ∷ codes "field_operation" ∷ [])
    ∷ (codes "admin", profile_names)
    ∷ (codes "server", [])
    ∷ []

-- `d.get(role, frozenset())`
unfoldable pub profiles_of : Option (List Text) → List Text
profiles_of none = []
profiles_of (some profiles) = profiles

abbrev pub forbidden_message : Text → Text → Text
forbidden_message role profile =
    codes "Role '" ++ role ++ codes "' is not allowed to issue profile '" ++ profile ++ codes "'"

unfoldable pub check_role_profile_access : Text → Text → Result (Unit {0})
unfolding profiles_of dict_get contains
check_role_profile_access role profile =
    require (contains (profiles_of (dict_get role_allowed_profiles role)) profile)
      (api_error 403 profile_forbidden (forbidden_message role profile) null)

-- `a or b` for an optional text
abbrev pub or_else : Option Text → Text → Text
or_else none b = b
or_else (some []) b = b
or_else (some (c ∷ s)) b = c ∷ s

-- `list(xs or [])`, `dict(d or {})`
abbrev pub or_nil {ℓ} : {A : Type ℓ} → Option (List A) → List A
or_nil none = []
or_nil (some xs) = xs

-- `if value: options[key] = value`
unfoldable pub set_given : Text → Option Text → Dict Text → Dict Text
unfolding dict_set
set_given key none options = options
set_given key (some []) options = options
set_given key (some (c ∷ s)) options = dict_set options key (c ∷ s)

-- `BUILTIN_PROFILES[name]`
unfoldable pub builtin : Option CertificatePermissions → Result CertificatePermissions
builtin none = raised key_error
builtin (some base) = ok base

-- The permissions before the convenience overrides.
unfoldable pub base_permissions :
    Text → Option (List Text) → Option (Dict Text) → Result CertificatePermissions
unfolding builtin dict_get
base_permissions name extensions_override critical_options_override =
    if text_eq name (codes "custom")
    then ok (record {
      extensions = or_nil extensions_override;
      critical_options = or_nil critical_options_override;
    })
    else builtin (dict_get builtin_profiles name)

abbrev unknown_message : Text → Text
unknown_message name =
    codes "Unknown profile: "
    ++ name
    ++ codes ". Allowed: "
    ++ join (codes ", ") (sorted profile_names)

unfoldable pub resolve_profile :
    (profile_name : Option Text) (default_profile : Text) (extensions_override : Option (List Text))
    (critical_options_override : Option (Dict Text)) (source_address force_command : Option Text)
    → Result CertificatePermissions
unfolding base_permissions set_given contains join sorted
resolve_profile profile_name default_profile extensions_override critical_options_override
      source_address force_command =
    do
      let name = or_else profile_name default_profile
      require (contains profile_names name)
          (api_error 422 profile_unknown (unknown_message name) null)
      base ← base_permissions name extensions_override critical_options_override
      ok (record {
        extensions = base.extensions;
        critical_options =
            set_given (codes "force-command") force_command
              (set_given (codes "source-address") source_address base.critical_options);
      })

extension_flags : List Text → List Text
extension_flags [] = []
extension_flags (ext ∷ exts) = codes "-O" ∷ (codes "extension:" ++ ext) ∷ extension_flags exts

unfoldable pub critical_flag : Text → Text → Text
critical_flag key value =
    if is_empty value
    then codes "critical:" ++ key
    else codes "critical:" ++ (key ++ (codes "=" ++ value))

critical_flags : Dict Text → List Text
unfolding critical_flag
critical_flags [] = []
critical_flags ((key, value) ∷ options) =
    codes "-O" ∷ critical_flag key value ∷ critical_flags options

unfoldable pub build_keygen_options : CertificatePermissions → List Text
unfolding extension_flags critical_flags
build_keygen_options permissions =
    codes "-O"
    ∷ codes "clear"
    ∷ (extension_flags permissions.extensions ++ critical_flags permissions.critical_options)
