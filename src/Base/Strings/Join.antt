-- ===== src/Base/Strings/Join.antt =====
-- Texts without a given code point, and splitting what was joined.
use Prim.Native.Nat.{ℕ}
use mathlib.Core.Path.{◌≡◌, refl, ap}
use mathlib.Core.Logic.{◌≢◌, inl, inr}
use mathlib.Core.List.{List, [], ◌∷◌, ◌++◌}
use native.Mathlib.Omega.{arith}
use secure_sshlinux_client.Base.Tests.{Bool-cases, ◌==◌}
use secure_sshlinux_client.Base.Lists.{All}
use secure_sshlinux_client.Base.Strings.Defs.{Text, is_space, lstrip, rstrip_cons, rstrip, strip}
use secure_sshlinux_client.Base.Strings.Split.{add_first, split_on, join}

module _ (sep : ℕ) where
  abbrev pub Lacks : Text → Type 0
  Lacks = All (λ c. c ≢ sep)

  add_first-All : (c : ℕ) (ps : List Text) → c ≢ sep → All Lacks ps → All Lacks (add_first c ps)
  add_first-All c [] h g = ((h, tt), tt)
  add_first-All c (p ∷ ps) h (g, gs) = ((h, g), gs)

  pub split_on-All : (s : Text) → All Lacks (split_on sep s)
  unfolding split_on
  split_on-All [] = (tt, tt)
  split_on-All (c ∷ s) = elim (Bool-cases (c == sep)) [
    | inl e ↦ rw e (tt, split_on-All s)
    | inr e ↦ rw e (add_first-All c (split_on sep s) (ground arith) (split_on-All s))
  ]

  split_on_lacking : (p : Text) → Lacks p → split_on sep p ≡ p ∷ []
  unfolding split_on
  split_on_lacking [] h = refl
  split_on_lacking (c ∷ p) (h, g) = ground (arith, split_on_lacking p g)

  split_on-append : (p s : Text) → Lacks p → split_on sep (p ++ (sep ∷ s)) ≡ p ∷ split_on sep s
  unfolding split_on
  split_on-append [] s h = ground arith
  split_on-append (c ∷ p) s (h, g) = ground (arith, split_on-append p s g)

  -- What was joined is split into the same parts.
  pub split_on-join :
      (p : Text) (ps : List Text)
      → All Lacks (p ∷ ps)
      → split_on sep (join (sep ∷ []) (p ∷ ps)) ≡ p ∷ ps
  unfolding join
  split_on-join p [] (h, _) = split_on_lacking p h
  split_on-join p (q ∷ ps) (h, hs) =
      rw (split_on-append p (join (sep ∷ []) (q ∷ ps)) h) (ap (λ r. p ∷ r) (split_on-join q ps hs))

  lstrip-Lacks : (s : Text) → Lacks s → Lacks (lstrip s)
  unfolding lstrip
  lstrip-Lacks [] h = tt
  lstrip-Lacks (c ∷ s) (h, g) = elim (Bool-cases (is_space c)) [
    | inl e ↦ rw e (lstrip-Lacks s g)
    | inr e ↦ rw e (h, g)
  ]

  rstrip_cons-Lacks : (c : ℕ) (s : Text) → c ≢ sep → Lacks s → Lacks (rstrip_cons c s)
  unfolding rstrip_cons
  rstrip_cons-Lacks c [] h g = elim (Bool-cases (is_space c)) [
    | inl e ↦ rw e tt
    | inr e ↦ rw e (h, tt)
  ]
  rstrip_cons-Lacks c (d ∷ s) h g = (h, g)

  rstrip-Lacks : (s : Text) → Lacks s → Lacks (rstrip s)
  unfolding rstrip
  rstrip-Lacks [] h = tt
  rstrip-Lacks (c ∷ s) (h, g) = rstrip_cons-Lacks c (rstrip s) h (rstrip-Lacks s g)

  pub strip-Lacks : (s : Text) → Lacks s → Lacks (strip s)
  unfolding strip
  strip-Lacks s h = rstrip-Lacks (lstrip s) (lstrip-Lacks s h)

-- The text is not empty and has no white space at its right end.
abbrev pub IsRightTrimmed : Text → Type 0
IsRightTrimmed t = (rstrip t ≡ t) × (t ≢ [])

rstrip_cons-ne-nil : (c : ℕ) (s : Text) → s ≢ [] → rstrip_cons c s ≡ c ∷ s
unfolding rstrip_cons
rstrip_cons-ne-nil c [] h = absurd (h refl)
rstrip_cons-ne-nil c (d ∷ s) h = refl

pub IsRightTrimmed-append : (p t : Text) → IsRightTrimmed t → IsRightTrimmed (p ++ t)
unfolding rstrip
IsRightTrimmed-append [] t h = h
IsRightTrimmed-append (c ∷ p) t h =
    let (e, n) = IsRightTrimmed-append p t h in (rw e (rstrip_cons-ne-nil c (p ++ t) n), λ g. cc)

pub IsRightTrimmed-join :
    (sep : Text) (ps : List Text) (t : Text)
    → IsRightTrimmed t
    → IsRightTrimmed (join sep (ps ++ t ∷ []))
unfolding join
IsRightTrimmed-join sep [] t h = h
IsRightTrimmed-join sep (p ∷ []) t h =
    IsRightTrimmed-append p (sep ++ t) (IsRightTrimmed-append sep t h)
IsRightTrimmed-join sep (p ∷ q ∷ ps) t h =
    IsRightTrimmed-append p _ (IsRightTrimmed-append sep _ (IsRightTrimmed-join sep (q ∷ ps) t h))
