-- ===== src/Client/Certificates.antt =====
-- `parse_inspection_output` and `needs_renewal` of src/zfcssh_client/certificates.py.
pub mod Lines
pub mod Headings
pub mod Misread
pub mod Renewal
use secure_sshlinux_client.Base.{
  ℕ, ◌+◌, ◌-◌, ◌*◌, Bool, true, false, not, ◌&&◌, Option, none, some, List, [], ◌∷◌, ◌++◌, leb, ltb,
  if◌then◌else◌, is_empty, drop, Text, codes, text_eq, starts_with, ends_with, strip, splitlines,
}
use secure_sshlinux_client.Inspection.{split_once}
use secure_sshlinux_client.Client.Errors.{
  Answer, failed, returned, ◌>>=◌, certificate_error, time_error,
}

pub record CertificateInfo : Type 0 where
  pub valid_after : Text
  pub valid_before : Text
  pub principals : List Text
  pub raw_output : Text

-- The variables of the loop.
pub record Reading : Type 0 where
  pub valid_after : Text
  pub valid_before : Text
  pub principals : List Text
  pub in_principals : Bool

-- `valid_after, valid_before = valid_range.split(" to ", 1)`, or the error where it has no " to ".
unfoldable pub read_validity : Option (Text × Text) → Reading → Answer Reading
read_validity none r =
    failed
      (certificate_error (codes "Certificate inspection output was missing validity information"))
read_validity (some (after, before)) r =
    returned (record r { valid_after = after; valid_before = before; in_principals = false })

-- `elif in_principals and line:`; a line that ends with a colon closes the list.
unfoldable pub read_principal : Text → Reading → Reading
read_principal line r =
    if r.in_principals && not (is_empty line)
    then if ends_with (codes ":") line
      then record r { in_principals = false }
      else record r { principals = r.principals ++ line ∷ [] }
    else r

-- One turn of the loop, on the stripped line.
unfoldable pub read_line : Text → Reading → Answer Reading
read_line line r =
    if starts_with (codes "Valid: from ") line
    then read_validity (split_once (codes " to ") (drop 12 line)) r
    else if text_eq line (codes "Principals:")
    then returned (record r { in_principals = true })
    else returned (read_principal line r)

unfoldable pub read_lines : List Text → Reading → Answer Reading
read_lines [] r = returned r
read_lines (raw_line ∷ raw_lines) r = read_line (strip raw_line) r >>= read_lines raw_lines

abbrev pub no_reading : Reading
no_reading = record { valid_after = []; valid_before = []; principals = []; in_principals = false }

unfoldable pub info_of : Text → Reading → Answer CertificateInfo
info_of raw_output r =
    if is_empty r.valid_before
    then failed (certificate_error (codes "Certificate inspection output was incomplete"))
    else returned (record {
      valid_after = r.valid_after;
      valid_before = r.valid_before;
      principals = r.principals;
      raw_output = raw_output;
    })

unfoldable pub parse_inspection_output : Text → Answer CertificateInfo
parse_inspection_output output =
    read_lines (splitlines output) no_reading >>= info_of (strip output)

-- Times are in microseconds, from a fixed date; the parser of times gives seconds, or the
-- `ValueError` of `strptime`. Only differences count, so that the date is left open.
abbrev pub quarter_hour : ℕ
quarter_hour = 15 * 60 * 1000000

-- `max(timedelta(minutes=15), lifetime / 4)`; a negative lifetime counts as none, and a quarter of a
-- second is a whole number of microseconds.
unfoldable pub renewal_window : ℕ → ℕ → ℕ
renewal_window valid_after valid_before =
    let quarter = (valid_before - valid_after) * 250000 in
    if ltb quarter quarter_hour then quarter_hour else quarter

-- `remaining <= renewal_window`
unfoldable pub is_due : ℕ → ℕ → ℕ → Bool
is_due valid_after valid_before now =
    leb (valid_before * 1000000) (now + renewal_window valid_after valid_before)

unfoldable pub ssh_time : Option ℕ → Answer ℕ
ssh_time none = failed time_error
ssh_time (some seconds) = returned seconds

module _ (strptime : Text → Option ℕ) where
  unfoldable pub needs_renewal : Option CertificateInfo → ℕ → Answer Bool
  needs_renewal none now = returned true
  needs_renewal (some certificate) now =
      if text_eq certificate.valid_before (codes "forever") then returned false else do
        valid_after ← ssh_time (strptime certificate.valid_after)
        valid_before ← ssh_time (strptime certificate.valid_before)
        returned (is_due valid_after valid_before now)
