-- ===== src/Base/Strings/Strip.antt =====
-- What `strip` does to the ends of a text.
use Prim.Native.Nat.{ℕ}
use mathlib.Core.Path.{◌≡◌, refl, ap, ◌∙◌}
use mathlib.Core.Logic.{inl, inr}
use mathlib.Core.Bool.{false}
use mathlib.Core.List.{[], ◌∷◌}
use secure_sshlinux_client.Base.Tests.{Bool-cases}
use secure_sshlinux_client.Base.Strings.Defs.{Text, is_space, lstrip, rstrip_cons, rstrip, strip}

-- The text has no white space at its left end.
abbrev pub IsLeftTrimmed : Text → Type 0
IsLeftTrimmed [] = Unit
IsLeftTrimmed (c ∷ s) = is_space c ≡ false

lstrip-IsLeftTrimmed : (s : Text) → IsLeftTrimmed (lstrip s)
unfolding lstrip
lstrip-IsLeftTrimmed [] = tt
lstrip-IsLeftTrimmed (c ∷ s) = elim (Bool-cases (is_space c)) [
  | inl e ↦ rw e (lstrip-IsLeftTrimmed s)
  | inr e ↦ rw e e
]

lstrip_of_IsLeftTrimmed : (s : Text) → IsLeftTrimmed s → lstrip s ≡ s
unfolding lstrip
lstrip_of_IsLeftTrimmed [] h = refl
lstrip_of_IsLeftTrimmed (c ∷ s) h = rw h

rstrip_cons-IsLeftTrimmed :
    (c : ℕ) (s : Text) → is_space c ≡ false → IsLeftTrimmed (rstrip_cons c s)
unfolding rstrip_cons
rstrip_cons-IsLeftTrimmed c [] h = rw h h
rstrip_cons-IsLeftTrimmed c (d ∷ s) h = h

rstrip-IsLeftTrimmed : (s : Text) → IsLeftTrimmed s → IsLeftTrimmed (rstrip s)
unfolding rstrip
rstrip-IsLeftTrimmed [] h = tt
rstrip-IsLeftTrimmed (c ∷ s) h = rstrip_cons-IsLeftTrimmed c (rstrip s) h

rstrip-rstrip_cons : (c : ℕ) (s : Text) → rstrip s ≡ s → rstrip (rstrip_cons c s) ≡ rstrip_cons c s
unfolding rstrip
rstrip-rstrip_cons c [] h = elim (Bool-cases (is_space c)) [ inl e ↦ rw e refl | inr e ↦ rw (e, e) ]
rstrip-rstrip_cons c (d ∷ s) h = rw h refl

pub rstrip-rstrip : (s : Text) → rstrip (rstrip s) ≡ rstrip s
unfolding rstrip
rstrip-rstrip [] = refl
rstrip-rstrip (c ∷ s) = unfold rstrip in rstrip-rstrip_cons c (rstrip s) (rstrip-rstrip s)

-- A stripped text is stripped already.
pub strip-strip : (s : Text) → strip (strip s) ≡ strip s
unfolding strip
strip-strip s =
    ap rstrip (
      lstrip_of_IsLeftTrimmed (rstrip (lstrip s))
        (rstrip-IsLeftTrimmed (lstrip s) (lstrip-IsLeftTrimmed s)))
    ∙ rstrip-rstrip (lstrip s)
