-- ===== src/Validators/Principals/Hostnames.antt =====
-- Lower case changes nothing about which texts are hostnames.
use secure_sshlinux_client.Base.{
  ℕ, suc, ◌≡◌, sym, add_first, refl, ap, ap₂, inl, inr, not, ◌&&◌, ◌==◌, List, [], ◌∷◌, map, arith,
  all, length, Bool-cases, Text, split_on, lower, lower_code,
}
use secure_sshlinux_client.Validators.Principals.{
  is_label_char, starts_well, ends_well, matches_label, matches_hostname,
}

lower_code_idem : (c : ℕ) → lower_code (lower_code c) ≡ lower_code c
lower_code_idem c = ground arith

pub lower-lower : (s : Text) → lower (lower s) ≡ lower s
lower-lower [] = refl
lower-lower (c ∷ s) = ap₂ ◌∷◌ (lower_code_idem c) (lower-lower s)

length-lower : (s : Text) → length (lower s) ≡ length s
length-lower [] = refl
length-lower (c ∷ s) = ap suc (length-lower s)

is_label_char-lower_code : (c : ℕ) → is_label_char (lower_code c) ≡ is_label_char c
is_label_char-lower_code c = ground arith

all-lower : (s : Text) → all is_label_char (lower s) ≡ all is_label_char s
all-lower [] = refl
all-lower (c ∷ s) = ap₂ ◌&&◌ (is_label_char-lower_code c) (all-lower s)

dash-lower_code : (c : ℕ) → (lower_code c == b'-') ≡ (c == b'-')
dash-lower_code c = ground arith

dot-lower_code : (c : ℕ) → (lower_code c == b'.') ≡ (c == b'.')
dot-lower_code c = ground arith

starts_well-lower : (s : Text) → starts_well (lower s) ≡ starts_well s
unfolding starts_well
starts_well-lower [] = refl
starts_well-lower (c ∷ s) = ap not (dash-lower_code c)

ends_well-lower : (s : Text) → ends_well (lower s) ≡ ends_well s
unfolding ends_well
ends_well-lower [] = refl
ends_well-lower (c ∷ []) = ap not (dash-lower_code c)
ends_well-lower (c ∷ d ∷ s) = ends_well-lower (d ∷ s)

matches_label-lower : (s : Text) → matches_label (lower s) ≡ matches_label s
unfolding matches_label
matches_label-lower s = rw (length-lower, all-lower, starts_well-lower, ends_well-lower)

map-add_first :
    (c : ℕ) (ps : List Text) → map lower (add_first c ps) ≡ add_first (lower_code c) (map lower ps)
map-add_first c [] = refl
map-add_first c (p ∷ ps) = refl

split_on-lower : (s : Text) → split_on b'.' (lower s) ≡ map lower (split_on b'.' s)
unfolding split_on
split_on-lower [] = refl
split_on-lower (c ∷ s) = elim (Bool-cases (c == b'.')) [
  | inl e ↦ rw (dot-lower_code, split_on-lower s, e) refl
  | inr e ↦ rw (dot-lower_code, split_on-lower s, e) (sym (map-add_first c (split_on b'.' s)))
]

all-map-lower : (xs : List Text) → all matches_label (map lower xs) ≡ all matches_label xs
all-map-lower [] = refl
all-map-lower (x ∷ xs) = ap₂ ◌&&◌ (matches_label-lower x) (all-map-lower xs)

-- A hostname in lower case is a hostname.
pub matches_hostname-lower : (s : Text) → matches_hostname (lower s) ≡ matches_hostname s
unfolding matches_hostname
matches_hostname-lower s = rw (length-lower, split_on-lower, all-map-lower)
