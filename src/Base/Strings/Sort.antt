-- ===== src/Base/Strings/Sort.antt =====
-- `sorted` on texts, in the order of their code points.
use mathlib.Core.Bool.{Bool, true, false}
use mathlib.Core.List.{List, [], ◌∷◌}
use secure_sshlinux_client.Base.Tests.{ltb, if◌then◌else◌}
use secure_sshlinux_client.Base.Strings.Defs.{Text}

-- `s <= t`
text_leb : Text → Text → Bool
text_leb [] t = true
text_leb (c ∷ s) [] = false
text_leb (c ∷ s) (d ∷ t) = if ltb c d then true else if ltb d c then false else text_leb s t

insert_sorted : Text → List Text → List Text
insert_sorted x [] = x ∷ []
insert_sorted x (y ∷ ys) = if text_leb x y then x ∷ y ∷ ys else y ∷ insert_sorted x ys

-- `sorted(xs)`
unfoldable pub sorted : List Text → List Text
unfolding insert_sorted text_leb
sorted [] = []
sorted (x ∷ xs) = insert_sorted x (sorted xs)
