-- ===== src/Client/Broker/Bounds.antt =====
-- Which replies the client takes.
use secure_sshlinux_client.Base.{
  ℕ, suc, ◌≤◌, ◌<◌, ◌≡◌, refl, ap, ◌∙◌, ◌↔◌, Option, none, some, List, [], ◌∷◌, arith, Bool-cases,
  inl, inr, leb, leb→le, ltb-eq-false, codes, sym, zero, length, take, Text,
}
use secure_sshlinux_client.Json.{Json, object, null, boolean, number, string, array, Members}
use secure_sshlinux_client.Client.Errors.{ClientError, failed, returned, broker_error}
use secure_sshlinux_client.Client.Broker.{
  Network, received, max_bytes, object_of, decoded, within_limit, read_reply,
}

-- A list that fits is taken whole; of a longer one no more than asked for is taken.
take_whole : {A : Type 0} (n : ℕ) (xs : List A) → length xs ≤ n → take n xs ≡ xs
take_whole zero [] h = refl
take_whole zero (x ∷ xs) h = absurd (omega (arith, h))
take_whole (suc n) [] h = refl
take_whole (suc n) (x ∷ xs) h = ap (λ ys. x ∷ ys) (take_whole n xs (omega (arith, h)))

length-take : {A : Type 0} (n : ℕ) (xs : List A) → n ≤ length xs → length (take n xs) ≡ n
length-take zero xs h = refl
length-take (suc n) [] h = absurd (omega (arith, h))
length-take (suc n) (x ∷ xs) h = ap suc (length-take n xs (omega (arith, h)))

object_of-eq-returned :
    (parsed : Option Json) (members : Members)
    → object_of parsed ≡ returned members
    → parsed ≡ some (object members)
unfolding object_of
object_of-eq-returned none members h = cc
object_of-eq-returned (some null) members h = cc
object_of-eq-returned (some (boolean b)) members h = cc
object_of-eq-returned (some (number z s)) members h = cc
object_of-eq-returned (some (string s)) members h = cc
object_of-eq-returned (some (array values)) members h = cc
object_of-eq-returned (some (object ms)) members h = cc

refused : {e : ClientError} {members : Members} → failed e ≡ returned members → ⊥
refused h = cc

module _ {S : Type 0} (network : Network S) where
  decoded-eq-returned :
      (text : Option Text) (members : Members)
      → decoded network text ≡ returned members
      → (t : Text) × (text ≡ some t) × (network.loads t ≡ some (object members))
  unfolding decoded
  decoded-eq-returned none members h = cc
  decoded-eq-returned (some t) members h =
      (t, refl, object_of-eq-returned (network.loads t) members h)

  read_reply-short :
      (bytes : List ℕ)
      → length bytes ≤ max_bytes
      → read_reply network (received bytes) ≡ decoded network (network.decode bytes)
  unfolding read_reply within_limit
  read_reply-short bytes h =
      rw
        (
          take_whole (suc max_bytes) bytes (omega (arith, h)),
          ltb-eq-false max_bytes (length bytes) h,
        )
        refl

  read_reply-long :
      (bytes : List ℕ)
      → max_bytes < length bytes
      → read_reply network (received bytes)
        ≡ failed (broker_error (codes "Broker response exceeded maximum allowed size"))
  unfolding read_reply within_limit
  read_reply-long bytes h = rw (length-take (suc max_bytes) bytes (omega (arith, h))) refl

  -- The client takes a reply for a JSON object exactly when it has at most 65536 bytes, these decode, and
  -- the text parses to this object.
  pub read_reply_iff :
      (bytes : List ℕ) (members : Members)
      → (read_reply network (received bytes) ≡ returned members) ↔ (
          (length bytes ≤ max_bytes)
          × ((text : Text) × (network.decode bytes ≡ some text)
              × (network.loads text ≡ some (object members))))
  unfolding decoded object_of
  read_reply_iff bytes members =
      (accepted, λ (short, (text, d, l)). read_reply-short bytes short ∙ rw (d, l) refl)
    where
      accepted :
          read_reply network (received bytes) ≡ returned members
          → (length bytes ≤ max_bytes)
            × ((text : Text) × (network.decode bytes ≡ some text)
                × (network.loads text ≡ some (object members)))
      accepted h = elim (Bool-cases (leb (length bytes) max_bytes)) [
        | inl e ↦ (
          leb→le _ _ e,
          decoded-eq-returned (network.decode bytes) members
              (sym (read_reply-short bytes (leb→le _ _ e)) ∙ h),
        )
        | inr e ↦ absurd (refused (sym (read_reply-long bytes (ground (arith, e))) ∙ h))
      ]
