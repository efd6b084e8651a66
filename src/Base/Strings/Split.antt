-- ===== src/Base/Strings/Split.antt =====
-- `split`, `join` and `splitlines`.
use Prim.Native.Nat.{ℕ}
use mathlib.Core.Bool.{Bool, false, ◌&&◌, ◌||◌}
use mathlib.Core.List.{List, [], ◌∷◌, ◌++◌}
use secure_sshlinux_client.Base.Tests.{leb, ◌==◌, if◌then◌else◌}
use secure_sshlinux_client.Base.Strings.Defs.{Text, is_space}

abbrev pub add_first : ℕ → List Text → List Text
add_first c [] = (c ∷ []) ∷ []
add_first c (p ∷ ps) = (c ∷ p) ∷ ps

-- `s.split(sep)` for a separator of one code point.
unfoldable pub split_on : ℕ → Text → List Text
split_on sep [] = [] ∷ []
split_on sep (c ∷ s) = let rest = split_on sep s in if c == sep then [] ∷ rest else add_first c rest

-- `sep.join(parts)`
unfoldable pub join : Text → List Text → Text
join sep [] = []
join sep (p ∷ []) = p
join sep (p ∷ q ∷ ps) = p ++ (sep ++ join sep (q ∷ ps))

abbrev pub add_word : Text → List Text → List Text
add_word [] ws = ws
add_word (c ∷ w) ws = (c ∷ w) ∷ ws

words_from : Text → Text → List Text
words_from cur [] = add_word cur []
words_from cur (c ∷ s) =
    let closed = add_word cur (words_from [] s) in
    let longer = words_from (cur ++ c ∷ []) s in if is_space c then closed else longer

-- `s.split()`: the parts between runs of white space.
unfoldable pub words : Text → List Text
unfolding words_from is_space
words s = words_from [] s

unfoldable pub is_line_break : ℕ → Bool
is_line_break c =
    (leb 10 c && leb c 13) || (leb 28 c && leb c 30) || (c == 133) || (c == 8232) || (c == 8233)

-- `after_cr` says that a carriage return has just ended a line: a line feed then belongs to it.
unfoldable pub lines_from : Bool → Text → Text → List Text
lines_from after_cr cur [] = add_word cur []
lines_from after_cr cur (c ∷ s) =
    let skipped = lines_from false cur s in
    let closed = cur ∷ lines_from (c == 13) [] s in
    let longer = lines_from false (cur ++ c ∷ []) s in
    if after_cr && (c == 10) then skipped else if is_line_break c then closed else longer

-- `s.splitlines()`
unfoldable pub splitlines : Text → List Text
unfolding lines_from is_line_break
splitlines s = lines_from false [] s
