-- ===== src/Inspection.antt =====
-- `SigningService.inspect_certificate` and `_parse_certificate_inspection` of
-- app/services/signing.py: reading the listing that `ssh-keygen -L` prints.
pub mod Listing
pub mod Entries
pub mod Loops
pub mod RoundTrip
use secure_sshlinux_client.Base.{
  ℕ, Bool, true, false, Option, none, some, List, [], ◌∷◌, ◌++◌, if◌then◌else◌, is_empty, length,
  drop, Text, codes, text_eq, starts_with, is_space, lstrip, strip, splitlines, Dict, dict_set,
}
use secure_sshlinux_client.Errors.{
  Result, ok, raised, api_error, null, stderr, value_error, os_error, ssh_keygen_not_found,
  cert_parse_failed,
}

-- How a command ends that prints to its outputs: it is not installed, it exits, or the call, the
-- writing of its input or the decoding of its output raises a `ValueError` or another `OSError`.
pub data CommandRun : Type 0 where
  missing value_failed os_failed : CommandRun
  finished : (succeeded : Bool) (stdout stderr : Text) → CommandRun

-- The parts around the first place where a text has the separator, which is not empty; `none` where
-- it has it nowhere. So `sep in s` and `s.split(sep, 1)` in one.
unfoldable pub split_once : Text → Text → Option (Text × Text)
split_once sep [] = none
split_once sep (c ∷ s) =
    let later = split_once sep s in
    if starts_with sep (c ∷ s)
    then some ([], drop (length sep) (c ∷ s))
    else elim later [ none ↦ none | some (before, after) ↦ some (c ∷ before, after) ]

-- `s[:-1]`
unfoldable pub drop_last : Text → Text
drop_last [] = []
drop_last (c ∷ []) = []
drop_last (c ∷ d ∷ s) = c ∷ drop_last (d ∷ s)

-- A text up to its first white space, and the rest from there.
unfoldable pub span_word : Text → Text × Text
span_word [] = ([], [])
span_word (c ∷ s) =
    let (word, rest) = span_word s in if is_space c then ([], c ∷ s) else (c ∷ word, rest)

-- The values of `section`.
pub data Section : Type 0 where
  outside principals critical_options extensions : Section

-- The state of the loop.
pub record Inspection : Type 0 where
  pub cert_type : Text
  pub key_id : Text
  pub serial : Text
  pub valid_after : Text
  pub valid_before : Text
  pub principal_list : List Text
  pub signing_ca_fingerprint : Text
  pub option_list : Dict Text
  pub extension_list : List Text
  pub section : Section

abbrev pub no_inspection : Inspection
no_inspection = record {
  cert_type = [];
  key_id = [];
  serial = [];
  valid_after = [];
  valid_before = [];
  principal_list = [];
  signing_ca_fingerprint = [];
  option_list = [];
  extension_list = [];
  section = outside;
}

-- What the tests of the loop tell a line to be; the text is what follows the prefix.
pub data LineKind : Type 0 where
  type_line key_id_line serial_line valid_line signing_ca_line : Text → LineKind
  principals_line : LineKind
  critical_options_line extensions_line : (is_open : Bool) → LineKind
  entry : Text → LineKind

unfoldable pub classify : Text → LineKind
classify line =
    if starts_with (codes "Type: ") line
    then type_line (drop 6 line)
    else if starts_with (codes "Key ID: \"") line
    then key_id_line (drop_last (drop 9 line))
    else if starts_with (codes "Serial: ") line
    then serial_line (drop 8 line)
    else if starts_with (codes "Valid: from ") line
    then valid_line (drop 12 line)
    else if starts_with (codes "Signing CA: ") line
    then signing_ca_line (drop 12 line)
    else if text_eq line (codes "Principals:")
    then principals_line
    else if starts_with (codes "Critical Options:") line
    then critical_options_line (text_eq line (codes "Critical Options:"))
    else if starts_with (codes "Extensions:") line
    then extensions_line (text_eq line (codes "Extensions:"))
    else entry line

-- `valid_after, valid_before = valid_range.split(" to ", 1)`, where it has the separator.
unfoldable pub set_validity : Option (Text × Text) → Inspection → Inspection
set_validity none state = state
set_validity (some (after, before)) state = record state {
  valid_after = after;
  valid_before = before;
}

-- `line.split(None, 1)` of a line that is stripped and not empty.
unfoldable pub option_of_line : Text → Text × Text
option_of_line line = let (key, rest) = span_word line in (key, lstrip rest)

-- A line that no test matched, in each section.
unfoldable pub add_entry : Section → Text → Inspection → Inspection
add_entry outside line state = state
add_entry principals line state = record state {
  principal_list = state.principal_list ++ line ∷ [];
}
add_entry critical_options line state =
    let (key, value) = option_of_line line in
    record state { option_list = dict_set state.option_list key value }
add_entry extensions line state = record state {
  extension_list = state.extension_list ++ line ∷ [];
}

unfoldable pub absorb : LineKind → Inspection → Inspection
absorb (type_line s) state = record state { cert_type = s; section = outside }
absorb (key_id_line s) state = record state { key_id = s; section = outside }
absorb (serial_line s) state = record state { serial = s; section = outside }
absorb (valid_line s) state = record (set_validity (split_once (codes " to ") s) state) {
  section = outside;
}
absorb (signing_ca_line s) state = record state { signing_ca_fingerprint = s; section = outside }
absorb principals_line state = record state { section = principals }
absorb (critical_options_line true) state = record state { section = critical_options }
absorb (critical_options_line false) state = record state { section = outside }
absorb (extensions_line true) state = record state { section = extensions }
absorb (extensions_line false) state = record state { section = outside }
absorb (entry []) state = state
absorb (entry (c ∷ s)) state = add_entry state.section (c ∷ s) state

-- The loop over `output.splitlines()`.
unfoldable pub inspect_lines : List Text → Inspection → Inspection
inspect_lines [] state = state
inspect_lines (raw_line ∷ raw_lines) state =
    inspect_lines raw_lines (absorb (classify (strip raw_line)) state)

-- What the call returns.
pub record InspectCertResponse : Type 0 where
  pub cert_type : Text
  pub key_id : Text
  pub serial : Text
  pub valid_after : Text
  pub valid_before : Text
  pub principals : List Text
  pub critical_options : Dict Text
  pub extensions : List Text
  pub signing_ca_fingerprint : Text
  pub raw_output : Text

-- The test behind the loop, and the result.
unfoldable pub complete : Inspection → Text → Result InspectCertResponse
complete state raw_output =
    if is_empty state.cert_type
    then raised (
        api_error 422 cert_parse_failed (codes "Certificate inspection output was incomplete") null)
    else ok (record {
      cert_type = state.cert_type;
      key_id = state.key_id;
      serial = state.serial;
      valid_after = state.valid_after;
      valid_before = state.valid_before;
      principals = state.principal_list;
      critical_options = state.option_list;
      extensions = state.extension_list;
      signing_ca_fingerprint = state.signing_ca_fingerprint;
      raw_output = raw_output;
    })

-- `_parse_certificate_inspection`
unfoldable pub parse_certificate_inspection : Text → Result InspectCertResponse
parse_certificate_inspection output =
    complete (inspect_lines (splitlines output) no_inspection) (strip output)

unfoldable pub inspection_of_run : CommandRun → Result InspectCertResponse
inspection_of_run missing =
    raised (api_error 500 ssh_keygen_not_found (codes "ssh-keygen is not installed") null)
inspection_of_run value_failed = raised value_error
inspection_of_run os_failed = raised os_error
inspection_of_run (finished false out error) = raised (
    api_error 422 cert_parse_failed (codes "ssh-keygen could not parse the certificate")
      (stderr (strip error)))
inspection_of_run (finished true out error) = parse_certificate_inspection out

-- `inspect_certificate`; the first argument is `ssh-keygen -Lf` on a file of the given text.
unfoldable pub inspect_certificate : (Text → CommandRun) → Text → Result InspectCertResponse
inspect_certificate list_file certificate =
    inspection_of_run (list_file (strip certificate ++ codes "\n"))
