-- ===== src/Client/Certificates/Headings.antt =====
-- How the client's parser of listings passes over the sections behind the principals.
use secure_sshlinux_client.Base.{
  ◌≡◌, refl, sym, ap, ◌∙◌, Bool, true, false, List, [], ◌∷◌, ◌++◌, map, append-nil, All, is_empty,
  Text, codes, text_eq, starts_with, ends_with, strip,
}
use secure_sshlinux_client.Inspection.Listing.{eight_spaces, indented, section_lines, IsEntry}
use secure_sshlinux_client.Client.Certificates.{Reading, read_principal, read_lines}
use secure_sshlinux_client.Client.Certificates.Lines.{
  IsOther, read_line-other, read_line-outside, line_step, outside_loop,
}

-- A heading, as it stands above a list and beside `(none)`.
pub record IsHeading (heading : Text) : Type 0 where
  alone : strip (eight_spaces ++ (heading ++ codes " ")) ≡ heading
  beside : strip (eight_spaces ++ (heading ++ codes " (none)")) ≡ heading ++ codes " (none)"
  alone_other : IsOther heading
  beside_other : IsOther (heading ++ codes " (none)")
  alone_some : is_empty heading ≡ false
  beside_some : is_empty (heading ++ codes " (none)") ≡ false
  alone_colon : ends_with (codes ":") heading ≡ true
  beside_colon : ends_with (codes ":") (heading ++ codes " (none)") ≡ false

pub critical_options-IsHeading : IsHeading (codes "Critical Options:")
unfolding strip starts_with text_eq ends_with
critical_options-IsHeading = record {
  alone = refl;
  beside = refl;
  alone_other = (refl, refl);
  beside_other = (refl, refl);
  alone_some = refl;
  beside_some = refl;
  alone_colon = refl;
  beside_colon = refl;
}

pub extensions-IsHeading : IsHeading (codes "Extensions:")
unfolding strip starts_with text_eq ends_with
extensions-IsHeading = record {
  alone = refl;
  beside = refl;
  alone_other = (refl, refl);
  beside_other = (refl, refl);
  alone_some = refl;
  beside_some = refl;
  alone_colon = refl;
  beside_colon = refl;
}

-- What a section behind the principals adds to them, and whether the list is still open then.
abbrev pub taken : Bool → Text → List Text → List Text
taken true heading [] = (heading ++ codes " (none)") ∷ []
taken true heading (x ∷ xs) = []
taken false heading xs = []

abbrev pub still_open : Bool → List Text → Bool
still_open is_open [] = is_open
still_open is_open (x ∷ xs) = false

pub later_section :
    (heading : Text) (xs rest : List Text) (is_open : Bool) (r : Reading)
    → IsHeading heading
    → r.in_principals ≡ is_open
    → All IsEntry xs
    → read_lines (section_lines heading xs ++ rest) r
      ≡ read_lines rest (record r {
        principals = r.principals ++ taken is_open heading xs;
        in_principals = still_open is_open xs;
      })
unfolding section_lines read_principal
later_section heading [] rest true r h e g =
    line_step (eight_spaces ++ (heading ++ codes " (none)")) rest r _ (
      rw h.beside (
        read_line-other (heading ++ codes " (none)") r h.beside_other
        ∙ rw (e, h.beside_some, h.beside_colon) refl))
later_section heading [] rest false r h e g =
    line_step (eight_spaces ++ (heading ++ codes " (none)")) rest r r
      (rw h.beside (read_line-outside (heading ++ codes " (none)") r h.beside_other e))
    ∙ ap (read_lines rest) (rw append-nil (ap (λ b. record r { in_principals = b }) e))
later_section heading (x ∷ xs) rest true r h e g =
    line_step (eight_spaces ++ (heading ++ codes " ")) (map indented (x ∷ xs) ++ rest) r
      (record r { in_principals = false })
      (rw h.alone
        (read_line-other heading r h.alone_other ∙ rw (e, h.alone_some, h.alone_colon) refl))
    ∙ outside_loop (x ∷ xs) rest (record r { in_principals = false }) refl g
    ∙ ap (λ l. read_lines rest (record r { principals = l; in_principals = false }))
        (sym (append-nil r.principals))
later_section heading (x ∷ xs) rest false r h e g =
    line_step (eight_spaces ++ (heading ++ codes " ")) (map indented (x ∷ xs) ++ rest) r r
      (rw h.alone (read_line-outside heading r h.alone_other e))
    ∙ outside_loop (x ∷ xs) rest r e g
    ∙ ap (read_lines rest) (rw append-nil (ap (λ b. record r { in_principals = b }) e))
