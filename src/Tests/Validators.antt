-- ===== src/Tests/Validators.antt =====
-- The theorems on the validators.
use secure_sshlinux_client.Base.{dict_set}
use secure_sshlinux_client.Base.{
  words, ◌≡◌, ◌≢◌, ◌↔◌, refl, true, false, some, List, [], ◌∷◌, All, Text, codes, contains, text_eq,
  from_keys, append_new, Distinct, strip, split_on, Dict, pos,
}
use secure_sshlinux_client.Errors.{user, ok}
use secure_sshlinux_client.Settings.{user_allowed_principal_list}
use secure_sshlinux_client.Validators.Keys.{
  validate_ssh_public_key, check_key_line, check_key_parts,
}
use secure_sshlinux_client.Validators.Ttl.{normalize_ttl, ttl_or_default}
use secure_sshlinux_client.Validators.Ttl.Spelled.{IsLifetime}
use secure_sshlinux_client.Validators.Ttl.Bounds.{normalize_ttl_iff}
use secure_sshlinux_client.Validators.Principals.{
  validate_user_principals, keep_allowed, requested_or_all, nonempty_principals,
  validate_host_principals, keep_hosts, matches_hostname, matches_label,
}
use secure_sshlinux_client.Validators.Principals.User.{
  IsAllowed, allowed_list, wanted, validate_user_principals_sound,
}
use secure_sshlinux_client.Validators.Principals.Host.{
  IsHost, IsAcceptable, all_values, validate_host_principals_sound,
}
use secure_sshlinux_client.Validators.Options.{
  validate_extensions, keep_extensions, check_source_address, validate_critical_options,
  keep_options, check_option, contains_slash, is_address_part, check_address_parts,
}
use secure_sshlinux_client.Validators.Options.Laws.{
  IsAddressPart, check_source_address_iff, IsValidOption, validate_critical_options_sound,
}
use secure_sshlinux_client.Tests.Data.{lib, settings}

abbrev padded_key : Text
padded_key = codes " ssh-rsa QUJDREVGR0hJSktMTU5PUFFSU1RV "

abbrev bare_key : Text
bare_key = codes "ssh-rsa QUJDREVGR0hJSktMTU5PUFFSU1RV"

padded_key_ok : validate_ssh_public_key lib padded_key ≡ ok bare_key
unfolding validate_ssh_public_key check_key_line check_key_parts contains text_eq words strip
padded_key_ok = refl

normalize_ttl_iff_example :
    (normalize_ttl (some (codes "90m")) (pos 8) (pos 24) user ≡ ok (codes "90m")) ↔ (
      (codes "90m" ≡ ttl_or_default (some (codes "90m")) (pos 8))
      × IsLifetime (pos 24) (codes "90m"))
normalize_ttl_iff_example =
    normalize_ttl_iff (some (codes "90m")) (pos 8) (pos 24) user (codes "90m")

ninety_minutes_ok : normalize_ttl (some (codes "90m")) (pos 8) (pos 24) user ≡ ok (codes "90m")
unfolding normalize_ttl
ninety_minutes_ok = refl

-- "root" twice.
abbrev roots : List Text
roots = codes "root" ∷ codes "root" ∷ []

roots_ok : validate_user_principals (some roots) settings ≡ ok (codes "root" ∷ [])
unfolding validate_user_principals user_allowed_principal_list keep_allowed requested_or_all
    contains text_eq nonempty_principals append_new
roots_ok = refl

validate_user_principals_sound_example :
    ((codes "root" ∷ []) ≢ [])
    × Distinct (codes "root" ∷ [])
    × All (IsAllowed (allowed_list (some roots) settings)) (codes "root" ∷ [])
    × ((x : Text) → contains (codes "root" ∷ []) x ≡ contains (wanted (some roots) settings) x)
validate_user_principals_sound_example =
    validate_user_principals_sound (some roots) settings (codes "root" ∷ []) roots_ok

root_allowed : contains (user_allowed_principal_list settings) (codes "root") ≡ true
unfolding user_allowed_principal_list contains text_eq
root_allowed = refl

other_wanted : contains (codes "root" ∷ codes "adm" ∷ []) (codes "adm") ≡ true
unfolding contains text_eq
other_wanted = refl

other_not_allowed : contains (user_allowed_principal_list settings) (codes "adm") ≡ false
unfolding user_allowed_principal_list contains text_eq
other_not_allowed = refl

abbrev hosts : List Text
hosts = codes " Web-1.Example " ∷ codes "10.0.0.7" ∷ codes "" ∷ []

abbrev kept_hosts : List Text
kept_hosts = codes "web-1.example" ∷ codes "10.0.0.7" ∷ []

hosts_ok : validate_host_principals lib hosts ≡ ok kept_hosts
unfolding validate_host_principals nonempty_principals keep_hosts strip text_eq matches_hostname
    split_on matches_label from_keys append_new contains
hosts_ok = refl

validate_host_principals_sound_example :
    (kept_hosts ≢ [])
    × Distinct kept_hosts
    × All (IsHost lib) kept_hosts
    × All (IsAcceptable lib) hosts
    × ((x : Text) → contains kept_hosts x ≡ contains (all_values lib hosts) x)
validate_host_principals_sound_example =
    validate_host_principals_sound lib hosts kept_hosts hosts_ok

abbrev pty_twice : List Text
pty_twice = codes "permit-pty" ∷ codes " permit-pty" ∷ codes "permit-user-rc" ∷ []

abbrev pty_once : List Text
pty_once = codes "permit-pty" ∷ codes "permit-user-rc" ∷ []

pty_ok : validate_extensions pty_twice ≡ ok pty_once
unfolding validate_extensions keep_extensions contains text_eq strip append_new
pty_ok = refl

check_source_address_iff_example :
    (check_source_address lib (codes "10.0.0.0/8, 10.0.0.7") ≡ ok tt) ↔ (
      (strip (codes "10.0.0.0/8, 10.0.0.7") ≢ [])
      × All (IsAddressPart lib) (split_on b',' (codes "10.0.0.0/8, 10.0.0.7")))
check_source_address_iff_example = check_source_address_iff lib (codes "10.0.0.0/8, 10.0.0.7")

abbrev given_options : Dict Text
given_options =
    (codes "source-address ", codes " 10.0.0.7") ∷ (codes "verify-required", codes "") ∷ []

abbrev kept_options : Dict Text
kept_options = (codes "source-address", codes "10.0.0.7") ∷ (codes "verify-required", codes "") ∷ []

options_ok : validate_critical_options lib given_options ≡ ok kept_options
unfolding validate_critical_options keep_options contains text_eq strip check_option
    check_source_address check_address_parts split_on is_address_part contains_slash dict_set
options_ok = refl

validate_critical_options_sound_example : All (λ e. IsValidOption lib e.0 e.1) kept_options
validate_critical_options_sound_example =
    validate_critical_options_sound lib given_options kept_options options_ok
