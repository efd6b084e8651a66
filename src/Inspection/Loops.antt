-- ===== src/Inspection/Loops.antt =====
-- The parser's loop over the sections of a listing.
use secure_sshlinux_client.Base.{
  ◌≡◌, refl, sym, ap, ◌∙◌, List, [], ◌∷◌, ◌++◌, map, append-nil, append_assoc, All, Text, codes,
  Distinct, strip, Dict, dict_set, keys,
}
use secure_sshlinux_client.Inspection.{
  Section, outside, principals, critical_options, extensions, Inspection, LineKind, classify,
  add_entry, absorb, inspect_lines,
}
use secure_sshlinux_client.Inspection.Listing.{
  eight_spaces, indented, section_lines, option_line, IsEntry, strip-indented, classify-headings,
}
use secure_sshlinux_client.Inspection.Entries.{
  IsOption, option_of_line-option_line, dict_set-fresh, fresh_of_Distinct,
}

-- One line, known by its kind.
pub line_step :
    (raw : Text) (raws : List Text) (kind : LineKind) (state : Inspection)
    → classify (strip raw) ≡ kind
    → inspect_lines (raw ∷ raws) state ≡ inspect_lines raws (absorb kind state)
unfolding inspect_lines
line_step raw raws kind state e = ap (λ k. inspect_lines raws (absorb k state)) e

entry_step :
    (line : Text) (state : Inspection)
    → IsEntry line
    → absorb (classify (strip (indented line))) state ≡ add_entry state.section line state
unfolding absorb
entry_step [] state ((_, (_, n)), _) = absurd (n refl)
entry_step (c ∷ s) state (t, k) = rw (strip-indented (c ∷ s) t, k) refl

entry_step_in :
    (line : Text) (state : Inspection) (section : Section)
    → state.section ≡ section
    → IsEntry line
    → absorb (classify (strip (indented line))) state ≡ add_entry section line state
entry_step_in line state section e g = entry_step line state g ∙ ap (λ s. add_entry s line state) e

option_IsEntry : (k v : Text) → IsOption (k, v) → IsEntry (option_line (k, v))
option_IsEntry k v (_, _, g) = g

principals_loop :
    (ps rest : List Text) (state : Inspection)
    → state.section ≡ principals
    → All IsEntry ps
    → inspect_lines (map indented ps ++ rest) state
      ≡ inspect_lines rest (record state { principal_list = state.principal_list ++ ps })
unfolding inspect_lines add_entry
principals_loop [] rest state e h = rw append-nil refl
principals_loop (p ∷ ps) rest state e (g, h) =
    ap (inspect_lines (map indented ps ++ rest)) (entry_step_in p state principals e g)
    ∙ principals_loop ps rest (add_entry principals p state) e h
    ∙ ap (λ l. inspect_lines rest (record state { principal_list = l }))
        (append_assoc state.principal_list (p ∷ []) ps)

extensions_loop :
    (xs rest : List Text) (state : Inspection)
    → state.section ≡ extensions
    → All IsEntry xs
    → inspect_lines (map indented xs ++ rest) state
      ≡ inspect_lines rest (record state { extension_list = state.extension_list ++ xs })
unfolding inspect_lines add_entry
extensions_loop [] rest state e h = rw append-nil refl
extensions_loop (x ∷ xs) rest state e (g, h) =
    ap (inspect_lines (map indented xs ++ rest)) (entry_step_in x state extensions e g)
    ∙ extensions_loop xs rest (add_entry extensions x state) e h
    ∙ ap (λ l. inspect_lines rest (record state { extension_list = l }))
        (append_assoc state.extension_list (x ∷ []) xs)

option_step :
    (k v : Text) (state : Inspection)
    → IsOption (k, v)
    → add_entry critical_options (option_line (k, v)) state
      ≡ record state { option_list = dict_set state.option_list k v }
unfolding add_entry
option_step k v state g =
    ap (λ o. record state { option_list = dict_set state.option_list o.0 o.1 })
      (option_of_line-option_line (k, v) g)

options_loop :
    (os : Dict Text) (rest : List Text) (state : Inspection)
    → state.section ≡ critical_options
    → All IsOption os
    → Distinct (keys (state.option_list ++ os))
    → inspect_lines (map indented (map option_line os) ++ rest) state
      ≡ inspect_lines rest (record state { option_list = state.option_list ++ os })
unfolding inspect_lines add_entry
options_loop [] rest state e h d = rw append-nil refl
options_loop ((k, v) ∷ os) rest state e (g, h) d =
    let fresh =
      dict_set-fresh state.option_list k v (fresh_of_Distinct state.option_list k v os d) in
    ap (inspect_lines (map indented (map option_line os) ++ rest)) (
      entry_step_in (option_line (k, v)) state critical_options e (option_IsEntry k v g)
      ∙ option_step k v state g
      ∙ ap (λ l. record state { option_list = l }) fresh)
    ∙ options_loop os rest (record state { option_list = state.option_list ++ (k, v) ∷ [] }) e h
        (rw append_assoc d)
    ∙ ap (λ l. inspect_lines rest (record state { option_list = l }))
        (append_assoc state.option_list ((k, v) ∷ []) os)

-- The section that a heading opens, if there are entries below it.
abbrev pub opened {ℓ} : {A : Type ℓ} → Section → List A → Section
opened s [] = outside
opened s (x ∷ xs) = s

pub principals_section :
    (ps rest : List Text) (state : Inspection)
    → state.section ≡ outside
    → All IsEntry ps
    → inspect_lines (section_lines (codes "Principals:") ps ++ rest) state
      ≡ inspect_lines rest (record state {
        principal_list = state.principal_list ++ ps;
        section = opened principals ps;
      })
unfolding section_lines absorb
principals_section [] rest state e h =
    line_step (eight_spaces ++ codes "Principals: (none)") rest _ state classify-headings.1
    ∙ ap (inspect_lines rest) (
        ap (λ s. add_entry s (codes "Principals: (none)") state) e
        ∙ unfold add_entry in rw append-nil (ap (λ s. record state { section = s }) e))
principals_section (p ∷ ps) rest state e h =
    line_step (eight_spaces ++ codes "Principals: ") (map indented (p ∷ ps) ++ rest) _ state
      classify-headings.0
    ∙ principals_loop (p ∷ ps) rest (record state { section = principals }) refl h

pub options_section :
    (os : Dict Text) (rest : List Text) (state : Inspection)
    → All IsOption os
    → Distinct (keys (state.option_list ++ os))
    → inspect_lines (section_lines (codes "Critical Options:") (map option_line os) ++ rest) state
      ≡ inspect_lines rest (record state {
        option_list = state.option_list ++ os;
        section = opened critical_options os;
      })
unfolding section_lines absorb
options_section [] rest state h d =
    line_step (eight_spaces ++ codes "Critical Options: (none)") rest _ state classify-headings.3
    ∙ ap (λ l. inspect_lines rest (record state { option_list = l; section = outside }))
        (sym (append-nil state.option_list))
options_section (o ∷ os) rest state h d =
    line_step (eight_spaces ++ codes "Critical Options: ")
      (map indented (map option_line (o ∷ os)) ++ rest) _ state classify-headings.2
    ∙ options_loop (o ∷ os) rest (record state { section = critical_options }) refl h d

pub extensions_section :
    (xs rest : List Text) (state : Inspection)
    → All IsEntry xs
    → inspect_lines (section_lines (codes "Extensions:") xs ++ rest) state
      ≡ inspect_lines rest (record state {
        extension_list = state.extension_list ++ xs;
        section = opened extensions xs;
      })
unfolding section_lines absorb
extensions_section [] rest state h =
    line_step (eight_spaces ++ codes "Extensions: (none)") rest _ state classify-headings.5
    ∙ ap (λ l. inspect_lines rest (record state { extension_list = l; section = outside }))
        (sym (append-nil state.extension_list))
extensions_section (x ∷ xs) rest state h =
    line_step (eight_spaces ++ codes "Extensions: ") (map indented (x ∷ xs) ++ rest) _ state
      classify-headings.4
    ∙ extensions_loop (x ∷ xs) rest (record state { section = extensions }) refl h
