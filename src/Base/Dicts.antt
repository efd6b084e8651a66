-- ===== src/Base/Dicts.antt =====
-- Python's `dict` with text keys, in insertion order.
use mathlib.Core.Path.{◌≡◌, refl, sym, ap, subst}
use mathlib.Core.Bool.{true, false}
use mathlib.Core.Option.{Option, none, some}
use mathlib.Core.List.{List, [], ◌∷◌}
use native.Mathlib.Omega.{arith}
use mathlib.Core.Logic.{inl, inr}
use secure_sshlinux_client.Base.Lists.{All}
use secure_sshlinux_client.Base.Tests.{Bool-cases, if◌then◌else◌}
use secure_sshlinux_client.Base.Strings.{Text, text_eq, text_eq_iff, contains}

abbrev pub Dict {ℓ} : Type ℓ → Type ℓ
Dict V = List (Text × V)

module _ {ℓ} {V : Type ℓ} where
  -- `d.get(k)`
  unfoldable pub dict_get : Dict V → Text → Option V
  dict_get [] k = none
  dict_get ((j, v) ∷ d) k = if text_eq j k then some v else dict_get d k

  -- `d[k] = v`: an old key keeps its place, a new one goes to the end.
  unfoldable pub dict_set : Dict V → Text → V → Dict V
  dict_set [] k v = (k, v) ∷ []
  dict_set ((j, w) ∷ d) k v = if text_eq j k then (j, v) ∷ d else (j, w) ∷ dict_set d k v

  abbrev pub keys : Dict V → List Text
  keys [] = []
  keys ((k, v) ∷ d) = k ∷ keys d

  pub dict_get-dict_set :
      (d : Dict V) (k j : Text) (v : V)
      → dict_get (dict_set d k v) j ≡ (if text_eq k j then some v else dict_get d j)
  unfolding dict_get dict_set
  dict_get-dict_set [] k j v = refl
  dict_get-dict_set ((i, w) ∷ d) k j v =
      ground (arith, text_eq_iff k j, text_eq_iff i k, text_eq_iff i j, dict_get-dict_set d k j v)

  pub All-keys-dict_set {κ} :
      (P : Text → Type κ) (d : Dict V) (k : Text) (v : V)
      → All P (keys d)
      → P k
      → All P (keys (dict_set d k v))
  unfolding dict_set
  All-keys-dict_set P [] k v h p = (p, tt)
  All-keys-dict_set P ((j, w) ∷ d) k v (q, h) p = elim (Bool-cases (text_eq j k)) [
    | inl e ↦ rw e (q, h)
    | inr e ↦ rw e (q, All-keys-dict_set P d k v h p)
  ]

  -- What holds of all entries, and of a new one, holds after the update.
  pub All-dict_set {κ} :
      (P : Text → V → Type κ) (d : Dict V) (k : Text) (v : V)
      → All (λ e. P e.0 e.1) d
      → P k v
      → All (λ e. P e.0 e.1) (dict_set d k v)
  unfolding dict_set
  All-dict_set P [] k v h p = (p, tt)
  All-dict_set P ((j, w) ∷ d) k v (q, h) p = elim (Bool-cases (text_eq j k)) [
    | inl e ↦ rw e (subst (λ i. P i v) (sym ((text_eq_iff j k).0 e)) p, h)
    | inr e ↦ rw e (q, All-dict_set P d k v h p)
  ]

  pub All-keys-entries {κ} : (P : Text → Type κ) (d : Dict V) → All (λ e. P e.0) d → All P (keys d)
  All-keys-entries P [] h = tt
  All-keys-entries P ((k, v) ∷ d) (p, h) = (p, All-keys-entries P d h)

  pub contains-keys :
      (d : Dict V) (k : Text) {v : V} → dict_get d k ≡ some v → contains (keys d) k ≡ true
  unfolding dict_get contains
  contains-keys [] k e = cc
  contains-keys ((j, w) ∷ d) k e = elim (Bool-cases (text_eq j k)) [
    | inl same ↦ rw same refl
    | inr other ↦ rw other (contains-keys d k (rw other at e))
  ]

  -- An entry in front, under another key, hides nothing.
  pub dict_get-fresh :
      (d : Dict V) (j k : Text) (w : V) {v : V}
      → contains (keys d) j ≡ false
      → dict_get d k ≡ some v
      → dict_get ((j, w) ∷ d) k ≡ some v
  dict_get-fresh d j k w fresh e = elim (Bool-cases (text_eq j k)) [
    | inl same ↦ cc (ap (contains (keys d)) ((text_eq_iff j k).0 same), contains-keys d k e)
    | inr other ↦ unfold dict_get in rw other e
  ]
