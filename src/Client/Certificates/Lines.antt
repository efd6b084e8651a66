-- ===== src/Client/Certificates/Lines.antt =====
-- What the client's parser does with the lines of a list, inside and outside the principals.
use secure_sshlinux_client.Base.{
  ◌≡◌, refl, ap, ◌∙◌, true, false, List, [], ◌∷◌, ◌++◌, map, arith, append-nil, append_assoc, All,
  Text, codes, text_eq, starts_with, ends_with, strip,
}
use secure_sshlinux_client.Inspection.{entry, classify}
use secure_sshlinux_client.Inspection.Listing.{indented, IsEntry, strip-indented}
use secure_sshlinux_client.Client.Errors.{returned}
use secure_sshlinux_client.Client.Certificates.{Reading, read_principal, read_line, read_lines}

-- The line is neither the validity nor the heading of the principals.
abbrev pub IsOther : Text → Type 0
IsOther line =
    (starts_with (codes "Valid: from ") line ≡ false) × (text_eq line (codes "Principals:") ≡ false)

pub entry-IsOther : (line : Text) → classify line ≡ entry line → IsOther line
unfolding classify
entry-IsOther line e = ground arith

pub read_line-other :
    (line : Text) (r : Reading) → IsOther line → read_line line r ≡ returned (read_principal line r)
unfolding read_line
read_line-other line r (v, p) = rw (v, p) refl

pub read_line-outside :
    (line : Text) (r : Reading)
    → IsOther line
    → r.in_principals ≡ false
    → read_line line r ≡ returned r
unfolding read_principal
read_line-outside line r o e = read_line-other line r o ∙ rw e refl

-- One line, known by what it does.
pub line_step :
    (raw : Text) (raws : List Text) (r next : Reading)
    → read_line (strip raw) r ≡ returned next
    → read_lines (raw ∷ raws) r ≡ read_lines raws next
unfolding read_lines
line_step raw raws r next e = rw e refl

-- A line of a list of principals: it does not end with a colon.
abbrev pub IsListedPrincipal : Text → Type 0
IsListedPrincipal line = IsEntry line × (ends_with (codes ":") line ≡ false)

principal_line :
    (line : Text) (r : Reading)
    → r.in_principals ≡ true
    → IsListedPrincipal line
    → read_line (strip (indented line)) r
      ≡ returned (record r { principals = r.principals ++ line ∷ [] })
unfolding read_principal
principal_line [] r e (((_, (_, n)), _), colon) = absurd (n refl)
principal_line (c ∷ s) r e ((t, k), colon) =
    rw (strip-indented (c ∷ s) t)
      (read_line-other (c ∷ s) r (entry-IsOther (c ∷ s) k) ∙ rw (e, colon) refl)

pub principals_loop :
    (ps rest : List Text) (r : Reading)
    → r.in_principals ≡ true
    → All IsListedPrincipal ps
    → read_lines (map indented ps ++ rest) r
      ≡ read_lines rest (record r { principals = r.principals ++ ps })
principals_loop [] rest r e h = rw append-nil refl
principals_loop (p ∷ ps) rest r e (g, h) =
    line_step (indented p) (map indented ps ++ rest) r _ (principal_line p r e g)
    ∙ principals_loop ps rest (record r { principals = r.principals ++ p ∷ [] }) e h
    ∙ ap (λ l. read_lines rest (record r { principals = l }))
        (append_assoc r.principals (p ∷ []) ps)

pub outside_loop :
    (xs rest : List Text) (r : Reading)
    → r.in_principals ≡ false
    → All IsEntry xs
    → read_lines (map indented xs ++ rest) r ≡ read_lines rest r
outside_loop [] rest r e h = refl
outside_loop (x ∷ xs) rest r e ((t, k), h) =
    line_step (indented x) (map indented xs ++ rest) r r
      (rw (strip-indented x t) (read_line-outside x r (entry-IsOther x k) e))
    ∙ outside_loop xs rest r e h
