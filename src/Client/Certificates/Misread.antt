-- ===== src/Client/Certificates/Misread.antt =====
-- What the client's parser makes of a listing of `ssh-keygen -L`.
use secure_sshlinux_client.Base.{
  ◌≡◌, ◌≢◌, refl, sym, ap, ap₂, ◌∙◌, true, false, not, List, [], ◌∷◌, ◌++◌, map, append-nil,
  append_assoc, All, is_empty, Text, codes, text_eq, starts_with, strip, lstrip, is_space,
  splitlines-unlines, IsRightTrimmed-append, Dict,
}
use secure_sshlinux_client.Inspection.Listing.{
  Listed, eight_spaces, indented, section_lines, option_line, field_lines, listing_lines, listing,
  IsEntry, strip-IsTrimmed, labelled, quote-IsRightTrimmed,
}
use secure_sshlinux_client.Inspection.Entries.{split_once-to, IsOption}
use secure_sshlinux_client.Inspection.RoundTrip.{IsListing, valid_range, valid_range-IsRightTrimmed}
use secure_sshlinux_client.Client.Errors.{returned}
use secure_sshlinux_client.Client.Certificates.{
  Reading, read_validity, read_line, read_lines, no_reading, info_of, parse_inspection_output,
}
use secure_sshlinux_client.Client.Certificates.Lines.{
  IsOther, entry-IsOther, read_line-outside, line_step, IsListedPrincipal, principals_loop,
}
use secure_sshlinux_client.Client.Certificates.Headings.{
  critical_options-IsHeading, extensions-IsHeading, taken, still_open, later_section,
}

field_outside :
    (raw line : Text) (raws : List Text) (r : Reading)
    → strip raw ≡ line
    → IsOther line
    → r.in_principals ≡ false
    → read_lines (raw ∷ raws) r ≡ read_lines raws r
field_outside raw line raws r s o e = line_step raw raws r r (rw s (read_line-outside line r o e))

-- The state behind the fields.
abbrev with_validity : Listed → Reading
with_validity l = record {
  valid_after = l.valid_after;
  valid_before = l.valid_before;
  principals = [];
  in_principals = false;
}

validity_line :
    (l : Listed)
    → IsListing l
    → read_line (strip (eight_spaces ++ (codes "Valid: from " ++ valid_range l))) no_reading
      ≡ returned (with_validity l)
unfolding read_line read_validity starts_with valid_range lstrip is_space
validity_line l h =
    rw
      (
        labelled (codes "Valid: from ") (valid_range l) refl (valid_range-IsRightTrimmed l h),
        split_once-to l.valid_after l.valid_before h.valid_after,
      )
      refl

fields_loop :
    (l : Listed) (rest : List Text)
    → IsListing l
    → read_lines (field_lines l ++ rest) no_reading ≡ read_lines rest (with_validity l)
unfolding starts_with text_eq lstrip is_space valid_range
fields_loop l rest h =
    let valid_line = eight_spaces ++ (codes "Valid: from " ++ valid_range l) in
    let after_serial = valid_line ∷ rest in
    let after_key_id = (eight_spaces ++ (codes "Serial: " ++ l.serial)) ∷ after_serial in
    let after_ca =
      (eight_spaces ++ (codes "Key ID: \"" ++ (l.key_id ++ codes "\""))) ∷ after_key_id in
    let after_key = (eight_spaces ++ (codes "Signing CA: " ++ l.signing_ca)) ∷ after_ca in
    let after_type = (eight_spaces ++ (codes "Public key: " ++ l.public_key)) ∷ after_key in
    let after_file = (eight_spaces ++ (codes "Type: " ++ l.cert_type)) ∷ after_type in
    field_outside (l.file ++ codes ":") (l.file ++ codes ":") after_file no_reading
      (strip-IsTrimmed _ h.file.0) (entry-IsOther _ h.file.1) refl
    ∙ field_outside _ _ after_type no_reading
        (labelled (codes "Type: ") l.cert_type refl h.cert_type) (refl, refl) refl
    ∙ field_outside _ _ after_key no_reading
        (labelled (codes "Public key: ") l.public_key refl h.public_key) (refl, refl) refl
    ∙ field_outside _ _ after_ca no_reading
        (labelled (codes "Signing CA: ") l.signing_ca refl h.signing_ca) (refl, refl) refl
    ∙ field_outside _ _ after_key_id no_reading
        (labelled (codes "Key ID: \"") (l.key_id ++ codes "\"") refl
          (IsRightTrimmed-append l.key_id (codes "\"") quote-IsRightTrimmed))
        (refl, refl) refl
    ∙ field_outside _ _ after_serial no_reading (labelled (codes "Serial: ") l.serial refl h.serial)
        (refl, refl) refl
    ∙ line_step valid_line rest no_reading (with_validity l) (validity_line l h)

principals_section :
    (ps rest : List Text) (r : Reading)
    → r.in_principals ≡ false
    → r.principals ≡ []
    → All IsListedPrincipal ps
    → read_lines (section_lines (codes "Principals:") ps ++ rest) r
      ≡ read_lines rest (record r { principals = ps; in_principals = not (is_empty ps) })
unfolding section_lines strip starts_with text_eq read_line
principals_section [] rest r e n h =
    field_outside (eight_spaces ++ codes "Principals: (none)") (codes "Principals: (none)") rest r
      refl (refl, refl) e
    ∙ ap₂ (λ b l. read_lines rest (record r { principals = l; in_principals = b })) e n
principals_section (p ∷ ps) rest r e n h =
    line_step (eight_spaces ++ codes "Principals: ") (map indented (p ∷ ps) ++ rest) r
      (record r { in_principals = true }) refl
    ∙ principals_loop (p ∷ ps) rest (record r { in_principals = true }) refl h
    ∙ ap (λ l. read_lines rest (record r { principals = l ++ (p ∷ ps); in_principals = true })) n

-- The headings that are taken for principals: where there are principals but no critical options, the
-- heading of these, and where there are no extensions either, the heading of those too.
abbrev pub misread : Listed → List Text
misread l =
    let is_open = not (is_empty l.principals) in
    let opts = map option_line l.critical_options in
    taken is_open (codes "Critical Options:") opts
    ++ taken (still_open is_open opts) (codes "Extensions:") l.extensions

lines_read :
    (l : Listed)
    → IsListing l
    → All IsListedPrincipal l.principals
    → read_lines (listing_lines l) no_reading
      ≡ returned (record (with_validity l) {
        principals = l.principals ++ misread l;
        in_principals =
            still_open
              (still_open (not (is_empty l.principals)) (map option_line l.critical_options))
              l.extensions;
      })
unfolding read_lines
lines_read l h g =
    let is_open = not (is_empty l.principals) in
    let opts = map option_line l.critical_options in
    let exts = section_lines (codes "Extensions:") l.extensions in
    let crit = section_lines (codes "Critical Options:") opts in
    let open_options : Reading = record (with_validity l) {
      principals = l.principals;
      in_principals = is_open;
    } in
    let open_extensions : Reading = record (with_validity l) {
      principals = l.principals ++ taken is_open (codes "Critical Options:") opts;
      in_principals = still_open is_open opts;
    } in
    fields_loop l (section_lines (codes "Principals:") l.principals ++ (crit ++ exts)) h
    ∙ principals_section l.principals (crit ++ exts) (with_validity l) refl refl g
    ∙ later_section (codes "Critical Options:") opts exts is_open open_options
        critical_options-IsHeading refl (option_lines-IsEntry l.critical_options h.critical_options)
    ∙ ap (λ ls. read_lines ls open_extensions) (sym (append-nil exts))
    ∙ later_section (codes "Extensions:") l.extensions [] (still_open is_open opts) open_extensions
        extensions-IsHeading refl h.extensions
    ∙ ap
        (λ ls. returned (record (with_validity l) {
          principals = ls;
          in_principals = still_open (still_open is_open opts) l.extensions;
        }))
        (append_assoc l.principals (taken is_open (codes "Critical Options:") opts) _)
  where
    option_lines-IsEntry : (os : Dict Text) → All IsOption os → All IsEntry (map option_line os)
    option_lines-IsEntry [] u = tt
    option_lines-IsEntry ((k, v) ∷ os) ((_, _, e), u) = (e, option_lines-IsEntry os u)

-- The client's parser reads the validity of a listing back, and its principals followed by the headings
-- that it takes for principals: "Critical Options: (none)" stands among the principals of every
-- certificate that has principals and no critical options, and "Extensions: (none)" too where it has no
-- extensions. The listing must be one that can be told apart, and no principal may end with a colon.
pub parse_inspection_output-listing :
    (l : Listed)
    → IsListing l
    → All IsListedPrincipal l.principals
    → parse_inspection_output (listing l)
      ≡ returned (record {
        valid_after = l.valid_after;
        valid_before = l.valid_before;
        principals = l.principals ++ misread l;
        raw_output = strip (listing l);
      })
unfolding parse_inspection_output info_of
parse_inspection_output-listing l h g =
    rw
      (
        splitlines-unlines (listing_lines l) h.lines,
        lines_read l h g,
        some_before l.valid_before h.valid_before.1,
      )
      refl
  where
    some_before : (s : Text) → s ≢ [] → is_empty s ≡ false
    some_before [] n = absurd (n refl)
    some_before (c ∷ s) n = refl
