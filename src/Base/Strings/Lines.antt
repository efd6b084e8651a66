-- ===== src/Base/Strings/Lines.antt =====
-- Lines without line breaks, and reading back the lines of a text.
use mathlib.Core.Path.{◌≡◌, refl, ap, ◌∙◌}
use mathlib.Core.Logic.{inl, inr}
use mathlib.Core.Bool.{Bool, true, false, ◌&&◌}
use mathlib.Core.List.{List, [], ◌∷◌, ◌++◌, append-nil, append_assoc}
use secure_sshlinux_client.Base.Tests.{Bool-cases, ◌==◌}
use secure_sshlinux_client.Base.Lists.{All, All-append}
use secure_sshlinux_client.Base.Strings.Defs.{Text}
use secure_sshlinux_client.Base.Strings.Split.{
  join, add_word, is_line_break, lines_from, splitlines,
}

abbrev pub IsLine : Text → Type 0
IsLine = All (λ c. is_line_break c ≡ false)

-- Each line with its line feed.
unfoldable pub unlines : List Text → Text
unlines [] = []
unlines (p ∷ ps) = p ++ (10 ∷ unlines ps)

line_feed : is_line_break 10 ≡ true
unfolding is_line_break
line_feed = refl

lines_from-append :
    (cur p s : Text)
    → IsLine p
    → lines_from false cur (p ++ (10 ∷ s)) ≡ (cur ++ p) ∷ lines_from false [] s
unfolding lines_from
lines_from-append cur [] s h = rw (line_feed, append-nil) refl
lines_from-append cur (c ∷ p) s (h, g) =
    rw (h, lines_from-append (cur ++ c ∷ []) p s g)
      (ap (λ l. l ∷ lines_from false [] s) (append_assoc cur (c ∷ []) p))

pub splitlines-unlines : (ps : List Text) → All IsLine ps → splitlines (unlines ps) ≡ ps
unfolding splitlines unlines
splitlines-unlines [] h = refl
splitlines-unlines (p ∷ ps) (h, hs) =
    lines_from-append [] p (unlines ps) h ∙ ap (λ l. p ∷ l) (splitlines-unlines ps hs)

pub unlines-join :
    (p : Text) (ps : List Text) → join (10 ∷ []) (p ∷ ps) ++ (10 ∷ []) ≡ unlines (p ∷ ps)
unfolding unlines join
unlines-join p [] = refl
unlines-join p (q ∷ ps) =
    append_assoc p (10 ∷ join (10 ∷ []) (q ∷ ps)) (10 ∷ [])
    ∙ ap (λ s. p ++ (10 ∷ s)) (unlines-join q ps)

add_word-All : (w : Text) (ws : List Text) → IsLine w → All IsLine ws → All IsLine (add_word w ws)
add_word-All [] ws h hs = hs
add_word-All (c ∷ w) ws h hs = (h, hs)

lines_from-All :
    (after_cr : Bool) (cur s : Text) → IsLine cur → All IsLine (lines_from after_cr cur s)
unfolding lines_from
lines_from-All after_cr cur [] h = add_word-All cur [] h tt
lines_from-All after_cr cur (c ∷ s) h = elim (Bool-cases (after_cr && (c == 10))) [
  | inl e ↦ rw e (lines_from-All false cur s h)
  | inr e ↦ elim (Bool-cases (is_line_break c)) [
    | inl b ↦ rw (e, b) (h, lines_from-All (c == 13) [] s tt)
    | inr b ↦
        rw (e, b) (lines_from-All false (cur ++ c ∷ []) s (All-append _ cur (c ∷ []) h (b, tt)))
  ]
]

pub splitlines-All : (s : Text) → All IsLine (splitlines s)
unfolding splitlines
splitlines-All s = lines_from-All false [] s tt
