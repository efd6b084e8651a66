-- ===== src/Base/Strings/Members.antt =====
-- `x in xs`, and lists without repetition.
use mathlib.Core.Path.{◌≡◌, refl, ap, ◌∙◌}
use mathlib.Core.Logic.{◌≢◌, inl, inr}
use mathlib.Core.Bool.{Bool, true, false, ◌||◌}
use mathlib.Core.List.{List, [], ◌∷◌, ◌++◌}
use native.Mathlib.Omega.{arith}
use secure_sshlinux_client.Base.Tests.{Bool-cases, if◌then◌else◌}
use secure_sshlinux_client.Base.Lists.{All, All-append, All-map}
use secure_sshlinux_client.Base.Strings.Defs.{Text, text_eq, text_eq_iff, text_eq_refl}

-- `x in xs`
unfoldable pub contains : List Text → Text → Bool
contains [] x = false
contains (y ∷ ys) x = text_eq y x || contains ys x

pub contains-append :
    (xs ys : List Text) (x : Text) → contains (xs ++ ys) x ≡ (contains xs x || contains ys x)
unfolding contains
contains-append [] ys x = refl
contains-append (y ∷ xs) ys x = ground (arith, contains-append xs ys x)

-- No member stands twice.
abbrev pub Distinct : List Text → Type 0
Distinct [] = Unit
Distinct (x ∷ xs) = (contains xs x ≡ false) × Distinct xs

-- `if x not in acc: acc.append(x)`
unfoldable pub append_new : List Text → Text → List Text
append_new acc x = if contains acc x then acc else acc ++ x ∷ []

Distinct-concat :
    (acc : List Text) (x : Text) → Distinct acc → contains acc x ≡ false → Distinct (acc ++ x ∷ [])
Distinct-concat [] x h e = unfold contains in (refl, tt)
Distinct-concat (y ∷ acc) x (g, h) e = (
  rw contains-append (unfold contains in ground (arith, text_eq_iff y x, text_eq_iff x y)),
  Distinct-concat acc x h (unfold contains in ground arith),
)

pub append_new-Distinct : (acc : List Text) (x : Text) → Distinct acc → Distinct (append_new acc x)
unfolding append_new
append_new-Distinct acc x h = elim (Bool-cases (contains acc x)) [
  | inl e ↦ rw e h
  | inr e ↦ rw e (Distinct-concat acc x h e)
]

-- Appending keeps the members and adds one.
pub contains-append_new :
    (acc : List Text) (x y : Text) → contains (append_new acc x) y ≡ (contains acc y || text_eq x y)
unfolding append_new
contains-append_new acc x y = elim (Bool-cases (contains acc x)) [
  | inl e ↦ rw e (ground (arith, text_eq_iff x y))
  | inr e ↦ rw (e, contains-append) (unfold contains in ground arith)
]

pub append_new-ne-nil : (acc : List Text) (x : Text) → contains (append_new acc x) x ≡ true
append_new-ne-nil acc x = rw (contains-append_new, text_eq_refl) (ground arith)

-- A property of all texts, from those on a list and from the texts that equal none of it.
pub on_names {ℓ} :
    (P : Text → Type ℓ) (names : List Text)
    → All P names
    → ((x : Text) → All (λ n. text_eq n x ≡ false) names → P x)
    → (x : Text) → P x
on_names P [] h other x = other x tt
on_names P (n ∷ ns) (p, h) other x = elim (Bool-cases (text_eq n x)) [
  | inl same ↦ rw (← (text_eq_iff n x).0 same) p
  | inr differs ↦
      on_names (λ y. text_eq n y ≡ false → P y) ns (All-map (λ y q _. q) ns h)
        (λ y g e. other y (e, g)) x differs
]

module _ {ℓ} (P : Text → Type ℓ) where
  pub All-append_new : (acc : List Text) (x : Text) → All P acc → P x → All P (append_new acc x)
  unfolding append_new
  All-append_new acc x h p = elim (Bool-cases (contains acc x)) [
    | inl e ↦ rw e h
    | inr e ↦ rw e (All-append P acc (x ∷ []) h (p, tt))
  ]

  -- A member has what all members have.
  pub All-contains : (xs : List Text) (x : Text) → All P xs → contains xs x ≡ true → P x
  unfolding contains
  All-contains [] x h e = cc
  All-contains (y ∷ xs) x (p, h) e = elim (Bool-cases (text_eq y x)) [
    | inl same ↦ rw (← (text_eq_iff y x).0 same) p
    | inr other ↦ All-contains xs x h (rw other at e)
  ]

-- `list(dict.fromkeys(xs))`, behind the keys seen so far: each member once, where it first stands.
unfoldable pub from_keys : List Text → List Text → List Text
from_keys seen [] = seen
from_keys seen (x ∷ xs) = from_keys (append_new seen x) xs

pub from_keys-Distinct : (seen xs : List Text) → Distinct seen → Distinct (from_keys seen xs)
unfolding from_keys
from_keys-Distinct seen [] h = h
from_keys-Distinct seen (x ∷ xs) h =
    from_keys-Distinct (append_new seen x) xs (append_new-Distinct seen x h)

pub contains-from_keys :
    (seen xs : List Text) (y : Text)
    → contains (from_keys seen xs) y ≡ (contains seen y || contains xs y)
unfolding from_keys contains
contains-from_keys seen [] y = ground arith
contains-from_keys seen (x ∷ xs) y =
    contains-from_keys (append_new seen x) xs y ∙ ground (arith, contains-append_new seen x y)

pub All-from_keys {ℓ} :
    (P : Text → Type ℓ) (seen xs : List Text) → All P seen → All P xs → All P (from_keys seen xs)
unfolding from_keys
All-from_keys P seen [] h g = h
All-from_keys P seen (x ∷ xs) h (p, g) =
    All-from_keys P (append_new seen x) xs (All-append_new P seen x h p) g

from_keys-contains_head :
    (seen : List Text) (x : Text) (xs : List Text) → contains (from_keys seen (x ∷ xs)) x ≡ true
unfolding contains
from_keys-contains_head seen x xs =
    contains-from_keys seen (x ∷ xs) x ∙ rw text_eq_refl (ground arith)

pub from_keys-ne-nil : (seen xs : List Text) → xs ≢ [] → from_keys seen xs ≢ []
unfolding contains
from_keys-ne-nil seen [] h e = h refl
from_keys-ne-nil seen (x ∷ xs) h e =
    cc (ap (λ l. contains l x) e, from_keys-contains_head seen x xs)
