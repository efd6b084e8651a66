-- ===== src/Validators/Principals.antt =====
-- `validate_user_principals` and `validate_host_principals` of app/utils/validators.py.
mod Nonempty
mod Hostnames
pub mod User
pub mod Host
use secure_sshlinux_client.Base.{
  ℕ, Bool, true, false, not, ◌&&◌, ◌||◌, Option, none, some, List, [], ◌∷◌, ◌++◌, leb, ◌==◌, all,
  length, is_empty, if◌then◌else◌, Text, codes, contains, append_new, from_keys, strip, lower,
  split_on,
}
use secure_sshlinux_client.Environment.{Library}
use secure_sshlinux_client.Errors.{
  Result, ok, raised, ◌>>=◌, ◌>>◌, require, api_error, null, principal_not_allowed,
  principal_required, principal_invalid,
}
use secure_sshlinux_client.Settings.{Settings, user_allowed_principal_list}
use secure_sshlinux_client.Validators.Keys.{is_alphanumeric}

-- The loop over the requested user principals; `normalized` is what it has kept so far.
unfoldable pub keep_allowed : List Text → List Text → List Text → Result (List Text)
keep_allowed allowed normalized [] = ok normalized
keep_allowed allowed normalized (principal ∷ principals) =
    let rest = keep_allowed allowed (append_new normalized principal) principals in
    if contains allowed principal
    then rest
    else raised (
        api_error 422 principal_not_allowed
          (codes "User principal " ++ principal ++ codes " is not allowed") null)

-- `requested or settings.user_allowed_principal_list`
unfoldable pub requested_or_all : Option (List Text) → List Text → List Text
requested_or_all none all_allowed = all_allowed
requested_or_all (some []) all_allowed = all_allowed
requested_or_all (some (p ∷ ps)) all_allowed = p ∷ ps

unfoldable pub nonempty_principals : Text → List Text → Result (List Text)
nonempty_principals message normalized = do
  require (not (is_empty normalized)) (api_error 422 principal_required message null)
  ok normalized

unfoldable pub validate_user_principals : Option (List Text) → Settings → Result (List Text)
validate_user_principals requested settings = do
  let allowed = user_allowed_principal_list settings
  normalized ← keep_allowed allowed [] (requested_or_all requested allowed)
  nonempty_principals (codes "At least one user principal is required") normalized

abbrev is_label_char : ℕ → Bool
is_label_char c = is_alphanumeric c || (c == b'-')

-- `(?<!-)` at the end of a label
ends_well : Text → Bool
ends_well [] = true
ends_well (c ∷ []) = not (c == b'-')
ends_well (c ∷ d ∷ s) = ends_well (d ∷ s)

-- `(?!-)` at the start of a label
starts_well : Text → Bool
starts_well [] = true
starts_well (c ∷ s) = not (c == b'-')

-- `(?!-)[A-Za-z0-9-]{1,63}(?<!-)`
unfoldable pub matches_label : Text → Bool
unfolding starts_well ends_well
matches_label s =
    leb 1 (length s) && leb (length s) 63 && all is_label_char s && starts_well s && ends_well s

-- `HOSTNAME_PATTERN.fullmatch`: labels hold no dot, so that the dots split the text into them.
unfoldable pub matches_hostname : Text → Bool
matches_hostname s = leb 1 (length s) && leb (length s) 253 && all matches_label (split_on b'.' s)

module _ (lib : Library) where
  -- The loop over the requested host principals.
  unfoldable pub keep_hosts : List Text → List Text → Result (List Text)
  keep_hosts normalized [] = ok normalized
  keep_hosts normalized (principal ∷ principals) =
      let value = strip principal in
      let skipped = keep_hosts normalized principals in
      let address = keep_hosts (normalized ++ value ∷ []) principals in
      let hostname = keep_hosts (normalized ++ lower value ∷ []) principals in
      if is_empty value
      then skipped
      else if lib.is_ip_address value
      then address
      else if matches_hostname value
      then hostname
      else raised (
          api_error 422 principal_invalid
            (codes "Host principal " ++ principal ++ codes " is not a valid IP or hostname") null)

  unfoldable pub validate_host_principals : List Text → Result (List Text)
  validate_host_principals requested = do
    nonempty_principals (codes "Host principals cannot be empty") requested
    normalized ← keep_hosts [] requested
    nonempty_principals (codes "Host principals cannot be empty") normalized
    ok (from_keys [] normalized)
