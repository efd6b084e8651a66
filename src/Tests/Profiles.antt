-- ===== src/Tests/Profiles.antt =====
-- The theorems on the profiles.
use secure_sshlinux_client.Base.{
  ◌≡◌, refl, Option, none, some, List, [], ◌∷◌, All, all, not, true, ◌==◌, arith, Text, codes,
  contains, text_eq, Dict, dict_get, keys,
}
use secure_sshlinux_client.Errors.{ok, require, api_error, null, profile_forbidden}
use secure_sshlinux_client.Profiles.{
  CertificatePermissions, check_role_profile_access, forbidden_message, resolve_profile,
  build_keygen_options,
}
use secure_sshlinux_client.Profiles.Access.{documented, check_role_profile_access-documented}
use secure_sshlinux_client.Profiles.Resolve.{
  IsBase, IsKnown, merged, resolve_profile-options, resolve_profile-IsKnown,
}
use secure_sshlinux_client.Profiles.Flags.{
  read_options, IsPlainKey, read_options-build_keygen_options,
}

check_role_profile_access-documented_example :
    check_role_profile_access (codes "dev") (codes "custom")
    ≡ require
        (documented (codes "dev") (codes "custom"))
        (api_error 403 profile_forbidden (forbidden_message (codes "dev") (codes "custom")) null)
check_role_profile_access-documented_example =
    check_role_profile_access-documented (codes "dev") (codes "custom")

abbrev custom : Option Text
custom = some (codes "custom")

abbrev pty : Option (List Text)
pty = some (codes "permit-pty" ∷ [])

abbrev given : Option (Dict Text)
given = some ((codes "source-address", codes "10.0.0.1") ∷ [])

abbrev command : Option Text
command = some (codes "ls")

abbrev permissions : CertificatePermissions
permissions = record {
  extensions = codes "permit-pty" ∷ [];
  critical_options =
      (codes "source-address", codes "10.0.0.1") ∷ (codes "force-command", codes "ls") ∷ [];
}

custom_ok : resolve_profile custom (codes "zf_production") pty given none command ≡ ok permissions
unfolding resolve_profile text_eq
custom_ok = refl

resolve_profile-options_example :
    (base : CertificatePermissions) × IsBase pty given (codes "custom") base
    × (permissions.extensions ≡ base.extensions)
    × ((k : Text)
        → dict_get permissions.critical_options k
          ≡ merged
              (codes "force-command")
              command
              k
              (merged (codes "source-address") none k (dict_get base.critical_options k)))
resolve_profile-options_example =
    resolve_profile-options custom (codes "zf_production") pty given none command permissions
      custom_ok

resolve_profile-IsKnown_example : IsKnown permissions
unfolding contains text_eq
resolve_profile-IsKnown_example =
    resolve_profile-IsKnown custom (codes "zf_production") pty given none command permissions
      ((refl, tt), (refl, tt)) custom_ok

plain_key : (key : Text) → all (λ c. not (c == b'=')) key ≡ true → IsPlainKey key
plain_key [] h = tt
plain_key (c ∷ key) h = (ground arith, plain_key key (ground arith))

read_options-build_keygen_options_example :
    read_options (build_keygen_options permissions) ≡ some permissions
read_options-build_keygen_options_example = read_options-build_keygen_options permissions keys_plain
  where
    keys_plain : All IsPlainKey (keys permissions.critical_options)
    keys_plain =
        (plain_key (codes "source-address") refl, (plain_key (codes "force-command") refl, tt))
