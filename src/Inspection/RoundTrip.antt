-- ===== src/Inspection/RoundTrip.antt =====
-- What the parser makes of a listing.
use secure_sshlinux_client.Base.{
  ◌≡◌, refl, sym, ap, ◌∙◌, inl, inr, true, false, List, [], ◌∷◌, ◌++◌, map, append-nil, All,
  Bool-cases, Text, codes, Distinct, strip, IsLine, splitlines-unlines, IsRightTrimmed,
  IsRightTrimmed-append, keys, Lacks, is_empty,
}
use secure_sshlinux_client.Errors.{ok}
use secure_sshlinux_client.Inspection.{
  outside, critical_options, extensions, Inspection, no_inspection, classify, set_validity,
  add_entry, absorb, inspect_lines, InspectCertResponse, complete, parse_certificate_inspection,
}
use secure_sshlinux_client.Inspection.Listing.{
  Listed, section_lines, option_line, field_lines, listing_lines, listing, IsEntry, strip-IsTrimmed,
  classify-type, classify-public_key, classify-signing_ca, classify-serial, classify-valid,
  classify-key_id,
}
use secure_sshlinux_client.Inspection.Entries.{split_once-to, IsOption}
use secure_sshlinux_client.Inspection.Loops.{
  opened, principals_section, options_section, extensions_section,
}

-- What the fields and entries of a listing must be for its lines to be told apart.
pub record IsListing (l : Listed) : Type 0 where
  pub lines : All IsLine (listing_lines l)
  pub file : IsEntry (l.file ++ codes ":")
  pub cert_type : IsRightTrimmed l.cert_type
  pub public_key : IsRightTrimmed l.public_key
  pub signing_ca : IsRightTrimmed l.signing_ca
  pub serial : IsRightTrimmed l.serial
  pub valid_after : Lacks b' ' l.valid_after
  pub valid_before : IsRightTrimmed l.valid_before
  pub principals : All IsEntry l.principals
  pub critical_options : All IsOption l.critical_options
  pub distinct : Distinct (keys l.critical_options)
  pub extensions : All IsEntry l.extensions

-- The state behind the fields.
abbrev with_fields : Listed → Inspection
with_fields l = record {
  cert_type = l.cert_type;
  key_id = l.key_id;
  serial = l.serial;
  valid_after = l.valid_after;
  valid_before = l.valid_before;
  principal_list = [];
  signing_ca_fingerprint = l.signing_ca;
  option_list = [];
  extension_list = [];
  section = outside;
}

file_step :
    (line : Text) (state : Inspection)
    → state.section ≡ outside
    → IsEntry line
    → absorb (classify (strip line)) state ≡ state
unfolding absorb add_entry
file_step [] state e ((_, (_, n)), _) = absurd (n refl)
file_step (c ∷ s) state e (t, k) =
    ap (λ x. absorb x state) (ap classify (strip-IsTrimmed (c ∷ s) t) ∙ k)
    ∙ ap (λ x. add_entry x (c ∷ s) state) e

unfoldable pub valid_range : Listed → Text
valid_range l = l.valid_after ++ (codes " to " ++ l.valid_before)

pub valid_range-IsRightTrimmed : (l : Listed) → IsListing l → IsRightTrimmed (valid_range l)
unfolding valid_range
valid_range-IsRightTrimmed l h =
    IsRightTrimmed-append l.valid_after _ (IsRightTrimmed-append (codes " to ") _ h.valid_before)

fields_loop :
    (l : Listed) (rest : List Text)
    → IsListing l
    → inspect_lines (field_lines l ++ rest) no_inspection ≡ inspect_lines rest (with_fields l)
unfolding inspect_lines absorb add_entry set_validity valid_range
fields_loop l rest h =
    rw
      (
        file_step (l.file ++ codes ":") no_inspection refl h.file,
        classify-type l.cert_type h.cert_type,
        classify-public_key l.public_key h.public_key,
        classify-signing_ca l.signing_ca h.signing_ca,
        classify-key_id l.key_id,
        classify-serial l.serial h.serial,
        classify-valid (valid_range l) (valid_range-IsRightTrimmed l h),
        split_once-to l.valid_after l.valid_before h.valid_after,
      )
      refl

-- What the broker answers for a listing.
abbrev pub shown : Listed → InspectCertResponse
shown l = record {
  cert_type = l.cert_type;
  key_id = l.key_id;
  serial = l.serial;
  valid_after = l.valid_after;
  valid_before = l.valid_before;
  principals = l.principals;
  critical_options = l.critical_options;
  extensions = l.extensions;
  signing_ca_fingerprint = l.signing_ca;
  raw_output = strip (listing l);
}

sections_loop :
    (l : Listed)
    → IsListing l
    → inspect_lines (listing_lines l) no_inspection ≡ record (with_fields l) {
      principal_list = l.principals;
      option_list = l.critical_options;
      extension_list = l.extensions;
      section = opened extensions l.extensions;
    }
unfolding inspect_lines
sections_loop l h =
    let exts = section_lines (codes "Extensions:") l.extensions in
    let before_extensions : Inspection = record (with_fields l) {
      principal_list = l.principals;
      option_list = l.critical_options;
      section = opened critical_options l.critical_options;
    } in
    let opts = section_lines (codes "Critical Options:") (map option_line l.critical_options) in
    fields_loop l (section_lines (codes "Principals:") l.principals ++ (opts ++ exts)) h
    ∙ principals_section l.principals (opts ++ exts) (with_fields l) refl h.principals
    ∙ options_section l.critical_options exts _ h.critical_options h.distinct
    ∙ ap (λ ls. inspect_lines ls before_extensions) (sym (append-nil exts))
    ∙ extensions_section l.extensions [] before_extensions h.extensions

complete-fields :
    (l : Listed) (state : Inspection)
    → IsListing l
    → state.cert_type ≡ l.cert_type
    → is_empty state.cert_type ≡ false
complete-fields l state h e = elim (Bool-cases (is_empty l.cert_type)) [
  | inl empty ↦ absurd (h.cert_type.1 (nil_of_is_empty l.cert_type empty))
  | inr some_type ↦ rw e some_type
]
  where
    nil_of_is_empty : (s : Text) → is_empty s ≡ true → s ≡ []
    nil_of_is_empty [] g = refl
    nil_of_is_empty (c ∷ s) g = cc

-- The parser of the broker reads a listing back as exactly the certificate that it shows: kind, key id,
-- serial, validity, principals, critical options, extensions and fingerprint. The lines must hold no
-- line break, entries must be trimmed and not look like a field or a heading, the keys of the critical
-- options must be distinct words.
pub parse_certificate_inspection-listing :
    (l : Listed) → IsListing l → parse_certificate_inspection (listing l) ≡ ok (shown l)
unfolding parse_certificate_inspection complete
parse_certificate_inspection-listing l h =
    rw
      (
        splitlines-unlines (listing_lines l) h.lines,
        sections_loop l h,
        complete-fields l (with_fields l) h refl,
      )
      refl
