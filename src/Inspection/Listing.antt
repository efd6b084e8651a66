-- ===== src/Inspection/Listing.antt =====
-- Listings of the shape that `ssh-keygen -L` prints (tests_client/test_certificates.py holds one), as
-- a description that does not depend on the parsers, and how their lines are told apart.
use secure_sshlinux_client.Base.{
  ℕ, ◌≡◌, refl, ap, ◌∙◌, true, false, List, [], ◌∷◌, ◌++◌, map, Text, codes, text_eq, starts_with,
  lstrip, rstrip, is_space, strip, IsRightTrimmed, IsRightTrimmed-append, Dict, unlines,
}
use secure_sshlinux_client.Inspection.{
  type_line, key_id_line, serial_line, valid_line, signing_ca_line, principals_line,
  critical_options_line, extensions_line, entry, drop_last, classify,
}

-- What a listing shows.
pub record Listed : Type 0 where
  pub file : Text
  pub cert_type : Text
  pub public_key : Text
  pub signing_ca : Text
  pub key_id : Text
  pub serial : Text
  pub valid_after : Text
  pub valid_before : Text
  pub principals : List Text
  pub critical_options : Dict Text
  pub extensions : List Text

abbrev pub eight_spaces : Text
eight_spaces = codes "        "

abbrev pub indented : Text → Text
indented line = eight_spaces ++ (eight_spaces ++ line)

-- A heading with its entries below it, or with `(none)` beside it.
unfoldable pub section_lines : Text → List Text → List Text
section_lines heading [] = (eight_spaces ++ (heading ++ codes " (none)")) ∷ []
section_lines heading (e ∷ es) =
    (eight_spaces ++ (heading ++ codes " ")) ∷ (indented e ∷ map indented es)

-- An option that needs no value stands alone.
unfoldable pub option_line : Text × Text → Text
option_line (key, []) = key
option_line (key, c ∷ value) = key ++ (b' ' ∷ c ∷ value)

abbrev pub field_lines : Listed → List Text
field_lines l =
    (l.file ++ codes ":")
    ∷ (eight_spaces ++ (codes "Type: " ++ l.cert_type))
    ∷ (eight_spaces ++ (codes "Public key: " ++ l.public_key))
    ∷ (eight_spaces ++ (codes "Signing CA: " ++ l.signing_ca))
    ∷ (eight_spaces ++ (codes "Key ID: \"" ++ (l.key_id ++ codes "\"")))
    ∷ (eight_spaces ++ (codes "Serial: " ++ l.serial))
    ∷ (eight_spaces
        ++ (codes "Valid: from " ++ (l.valid_after ++ (codes " to " ++ l.valid_before))))
    ∷ []

abbrev pub listing_lines : Listed → List Text
listing_lines l =
    field_lines l
    ++ (section_lines (codes "Principals:") l.principals
        ++ (section_lines (codes "Critical Options:") (map option_line l.critical_options)
            ++ section_lines (codes "Extensions:") l.extensions))

abbrev pub listing : Listed → Text
listing l = unlines (listing_lines l)

-- Neither white space at its ends nor empty.
abbrev pub IsTrimmed : Text → Type 0
IsTrimmed s = (lstrip s ≡ s) × IsRightTrimmed s

-- A trimmed line that is none of those that the parser looks for.
abbrev pub IsEntry : Text → Type 0
IsEntry line = IsTrimmed line × (classify line ≡ entry line)

strip_spaces : (s : Text) → strip (eight_spaces ++ s) ≡ strip s
unfolding strip lstrip is_space
strip_spaces s = refl

pub strip-IsTrimmed : (s : Text) → IsTrimmed s → strip s ≡ s
unfolding strip
strip-IsTrimmed s (l, (r, _)) = ap rstrip l ∙ r

pub strip-indented : (s : Text) → IsTrimmed s → strip (indented s) ≡ s
strip-indented s h = strip_spaces (eight_spaces ++ s) ∙ strip_spaces s ∙ strip-IsTrimmed s h

pub strip-spaced : (s : Text) → IsTrimmed s → strip (eight_spaces ++ s) ≡ s
strip-spaced s h = strip_spaces s ∙ strip-IsTrimmed s h

-- A label in front of a value.
pub labelled :
    (label value : Text)
    → lstrip (label ++ value) ≡ label ++ value
    → IsRightTrimmed value
    → strip (eight_spaces ++ (label ++ value)) ≡ label ++ value
labelled label value l h = strip-spaced (label ++ value) (l, IsRightTrimmed-append label value h)

drop_last-append : (s : Text) (c : ℕ) → drop_last (s ++ c ∷ []) ≡ s
unfolding drop_last
drop_last-append [] c = refl
drop_last-append (d ∷ []) c = refl
drop_last-append (d ∷ e ∷ s) c = ap (λ r. d ∷ r) (drop_last-append (e ∷ s) c)

-- How the parser classifies the fields of a listing.
module _ (s : Text) (h : IsRightTrimmed s) where
  pub classify-type : classify (strip (eight_spaces ++ (codes "Type: " ++ s))) ≡ type_line s
  unfolding classify starts_with lstrip is_space
  classify-type = ap classify (labelled (codes "Type: ") s refl h)

  pub classify-public_key :
      classify (strip (eight_spaces ++ (codes "Public key: " ++ s)))
      ≡ entry (codes "Public key: " ++ s)
  unfolding classify starts_with lstrip is_space text_eq
  classify-public_key = ap classify (labelled (codes "Public key: ") s refl h)

  pub classify-signing_ca :
      classify (strip (eight_spaces ++ (codes "Signing CA: " ++ s))) ≡ signing_ca_line s
  unfolding classify starts_with lstrip is_space
  classify-signing_ca = ap classify (labelled (codes "Signing CA: ") s refl h)

  pub classify-serial : classify (strip (eight_spaces ++ (codes "Serial: " ++ s))) ≡ serial_line s
  unfolding classify starts_with lstrip is_space
  classify-serial = ap classify (labelled (codes "Serial: ") s refl h)

  pub classify-valid : classify (strip (eight_spaces ++ (codes "Valid: from " ++ s))) ≡ valid_line s
  unfolding classify starts_with lstrip is_space
  classify-valid = ap classify (labelled (codes "Valid: from ") s refl h)

pub quote-IsRightTrimmed : IsRightTrimmed (codes "\"")
unfolding rstrip is_space
quote-IsRightTrimmed = (refl, λ e. cc)

pub classify-key_id :
    (s : Text)
    → classify (strip (eight_spaces ++ (codes "Key ID: \"" ++ (s ++ codes "\"")))) ≡ key_id_line s
unfolding classify starts_with lstrip is_space
classify-key_id s =
    ap classify (
      labelled (codes "Key ID: \"") (s ++ codes "\"") refl
        (IsRightTrimmed-append s (codes "\"") quote-IsRightTrimmed))
    ∙ ap key_id_line (drop_last-append s b'"')

-- The headings, alone and with `(none)`.
pub classify-headings :
    (classify (strip (eight_spaces ++ codes "Principals: ")) ≡ principals_line)
    × (classify (strip (eight_spaces ++ codes "Principals: (none)"))
        ≡ entry (codes "Principals: (none)"))
    × (classify (strip (eight_spaces ++ codes "Critical Options: ")) ≡ critical_options_line true)
    × (classify (strip (eight_spaces ++ codes "Critical Options: (none)"))
        ≡ critical_options_line false)
    × (classify (strip (eight_spaces ++ codes "Extensions: ")) ≡ extensions_line true)
    × (classify (strip (eight_spaces ++ codes "Extensions: (none)")) ≡ extensions_line false)
unfolding classify strip text_eq starts_with
classify-headings = (refl, refl, refl, refl, refl, refl)
