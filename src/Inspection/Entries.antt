-- ===== src/Inspection/Entries.antt =====
-- The validity range, the options and their keys, as the parser reads them.
use secure_sshlinux_client.Base.{
  ◌≡◌, refl, ap, inl, inr, false, some, [], ◌∷◌, ◌++◌, arith, All, Bool-cases, Text, codes, text_eq,
  text_eq_iff, starts_with, contains, Distinct, lstrip, is_space, Dict, dict_set, keys, Lacks, ◌==◌,
}
use secure_sshlinux_client.Inspection.{split_once, span_word, option_of_line}
use secure_sshlinux_client.Inspection.Listing.{option_line, IsEntry}

pub split_once-to :
    (after before : Text)
    → Lacks b' ' after
    → split_once (codes " to ") (after ++ (codes " to " ++ before)) ≡ some (after, before)
unfolding split_once starts_with
split_once-to [] before h = refl
split_once-to (c ∷ after) before (h, g) =
    let differs : (b' ' == c) ≡ false = ground arith in
    rw (differs, split_once-to after before g) refl

-- No white space in the text.
abbrev pub IsWord : Text → Type 0
IsWord = All (λ c. is_space c ≡ false)

span_word_alone : (w : Text) → IsWord w → span_word w ≡ (w, [])
unfolding span_word
span_word_alone [] h = refl
span_word_alone (c ∷ w) (h, g) = rw (h, span_word_alone w g) refl

span_word-append : (w s : Text) → IsWord w → span_word (w ++ (b' ' ∷ s)) ≡ (w, b' ' ∷ s)
unfolding span_word is_space
span_word-append [] s h = refl
span_word-append (c ∷ w) s (h, g) = rw (h, span_word-append w s g) refl

-- The key is a word and the value has no white space in front.
abbrev pub IsOption : Text × Text → Type 0
IsOption (key, value) = IsWord key × (lstrip value ≡ value) × IsEntry (option_line (key, value))

pub option_of_line-option_line : (o : Text × Text) → IsOption o → option_of_line (option_line o) ≡ o
unfolding option_of_line option_line lstrip is_space
option_of_line-option_line (key, []) (w, l, _) = rw (span_word_alone key w) refl
option_of_line-option_line (key, c ∷ value) (w, l, _) =
    rw (span_word-append key (c ∷ value) w) (ap (λ v. (key, v)) l)

pub dict_set-fresh :
    (d : Dict Text) (k v : Text) → contains (keys d) k ≡ false → dict_set d k v ≡ d ++ (k, v) ∷ []
unfolding dict_set contains
dict_set-fresh [] k v h = refl
dict_set-fresh ((j, w) ∷ d) k v h = elim (Bool-cases (text_eq j k)) [
  | inl e ↦ cc (rw e at h)
  | inr e ↦ rw e (ap (λ r. (j, w) ∷ r) (dict_set-fresh d k v (rw e at h)))
]

later_differs :
    (d : Dict Text) (k v j : Text) (os : Dict Text)
    → contains (keys (d ++ (k, v) ∷ os)) j ≡ false
    → text_eq k j ≡ false
unfolding contains
later_differs [] k v j os h = ground arith
later_differs ((i, w) ∷ d) k v j os h = later_differs d k v j os (ground arith)

pub fresh_of_Distinct :
    (d : Dict Text) (k v : Text) (os : Dict Text)
    → Distinct (keys (d ++ (k, v) ∷ os))
    → contains (keys d) k ≡ false
unfolding contains
fresh_of_Distinct [] k v os h = refl
fresh_of_Distinct ((j, w) ∷ d) k v os (f, h) = ground (
  arith,
  text_eq_iff j k,
  text_eq_iff k j,
  later_differs d k v j os f,
  fresh_of_Distinct d k v os h,
)
