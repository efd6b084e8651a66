-- ===== src/Validators/Ttl/Bounds.antt =====
-- Which lifetimes `normalize_ttl` accepts: the limits and the default of the settings.
use secure_sshlinux_client.Base.{
  ℕ, ◌^◌, ◌≤◌, ◌<◌, ◌≡◌, refl, ◌↔◌, Option, none, some, List, [], ◌∷◌, ◌++◌, arith,
  length-digits_of, Text, codes, ℤ, pos, show_ℕ, digits_of, digits_of-All, span_digits-map,
  digit_value, number_from-digits_of, digits_of-ne-nil, ltb-eq-false, sym, ap, ◌∙◌,
}
use secure_sshlinux_client.Errors.{CertType, ok}
use secure_sshlinux_client.Validators.Ttl.Spelled.{
  IsLifetime, IsWithin, IsRead, with_digits-some, IsRead-IsLifetime, IsLifetime-IsRead,
}
use secure_sshlinux_client.Validators.Ttl.{
  TtlUnit, hours, unit_of, match_ttl, max_int_digits, ttl_minutes, exceeds, divides_to_float,
  ttl_or_default, check_ttl, normalize_ttl,
}

module _ (max_hours : ℤ) (cert_type : CertType) where
  check_ttl_sound :
      (ttl r : Text) (found : Option (List ℕ × TtlUnit))
      → check_ttl ttl found max_hours cert_type ≡ ok r
      → (r ≡ ttl) × ((f : List ℕ × TtlUnit) × (found ≡ some f) × IsWithin max_hours f)
  unfolding check_ttl
  check_ttl_sound ttl r none e = cc
  check_ttl_sound ttl r (some (ds, unit)) e =
      (ground arith, ((ds, unit), refl, (ground arith, ground arith, ground arith, ground arith)))

  check_ttl_complete :
      (ttl : Text) (f : List ℕ × TtlUnit)
      → IsWithin max_hours f
      → check_ttl ttl (some f) max_hours cert_type ≡ ok ttl
  unfolding check_ttl
  check_ttl_complete ttl (ds, unit) h = ground arith

normalize_ttl-IsRead :
    (ttl : Option Text) (default_hours max_hours : ℤ) (cert_type : CertType) (r : Text)
    → (normalize_ttl ttl default_hours max_hours cert_type ≡ ok r)
      ↔ ((r ≡ ttl_or_default ttl default_hours) × IsRead max_hours r)
unfolding normalize_ttl
normalize_ttl-IsRead ttl default_hours max_hours cert_type r = (sound, complete)
  where
    text : Text
    text = ttl_or_default ttl default_hours

    sound :
        normalize_ttl ttl default_hours max_hours cert_type ≡ ok r → (r ≡ text) × IsRead max_hours r
    sound e =
        let (same, (f, found, h)) = check_ttl_sound max_hours cert_type text r (match_ttl text) e in
        (same, (f, rw same found, h))

    complete :
        (r ≡ text) × IsRead max_hours r → normalize_ttl ttl default_hours max_hours cert_type ≡ ok r
    complete (same, (f, found, h)) =
        let found' : match_ttl text ≡ some f = rw (← same) found in
        rw found' (check_ttl_complete max_hours cert_type text f h ∙ ap ok (sym same))

-- `normalize_ttl` returns a text exactly where the requested text, or the default where none or an
-- empty one is requested, is a row of at most 4300 decimal digits and then `m`, `h` or `d`, and spells a
-- lifetime that is positive, at most the limit, so many hours, and, in minutes, one whose sixtieth is
-- below the largest floats; it returns that very text.
pub normalize_ttl_iff :
    (ttl : Option Text) (default_hours max_hours : ℤ) (cert_type : CertType) (r : Text)
    → (normalize_ttl ttl default_hours max_hours cert_type ≡ ok r)
      ↔ ((r ≡ ttl_or_default ttl default_hours) × IsLifetime max_hours r)
normalize_ttl_iff ttl default_hours max_hours cert_type r =
    let read = normalize_ttl-IsRead ttl default_hours max_hours cert_type r in
    (
      λ e. let (same, h) = read.0 e in (same, IsRead-IsLifetime max_hours r h),
      λ (same, h). read.1 (same, IsLifetime-IsRead max_hours r h),
    )

letter_h : digit_value b'h' ≡ none
unfolding digit_value
letter_h = refl

unit_h : unit_of (codes "h") ≡ some hours
unfolding unit_of
unit_h = refl

match_ttl-show_ℕ : (n : ℕ) → match_ttl (show_ℕ n ++ codes "h") ≡ some (digits_of n, hours)
unfolding match_ttl show_ℕ
match_ttl-show_ℕ n =
    rw (span_digits-map (digits_of n) b'h' [] (digits_of-All n) letter_h, unit_h)
      (with_digits-some (digits_of n) hours (digits_of-ne-nil n))

-- A printed number of hours is a lifetime within the limit, if it is positive, not above the limit and
-- short enough for `int`.
IsLifetime-show_ℕ :
    (n limit : ℕ)
    → 0 < n
    → n ≤ limit
    → n < 10 ^ max_int_digits
    → IsLifetime (pos limit) (show_ℕ n ++ codes "h")
unfolding ttl_minutes exceeds divides_to_float
IsLifetime-show_ℕ n limit p h short = IsRead-IsLifetime (pos limit) (show_ℕ n ++ codes "h") (
  (digits_of n, hours),
  match_ttl-show_ℕ n,
  (
    length-digits_of 4299 n short,
    refl,
    rw number_from-digits_of (omega arith),
    rw number_from-digits_of (ltb-eq-false _ _ (omega arith)),
  ),
)

-- Where no lifetime is requested, or an empty one, the configured default is printed and accepted: it
-- must be positive, at most the limit and below 10 ^ 4300.
pub normalize_ttl_default :
    (n limit : ℕ) (cert_type : CertType)
    → 0 < n
    → n ≤ limit
    → n < 10 ^ max_int_digits
    → (normalize_ttl none (pos n) (pos limit) cert_type ≡ ok (show_ℕ n ++ codes "h"))
      × (normalize_ttl (some []) (pos n) (pos limit) cert_type ≡ ok (show_ℕ n ++ codes "h"))
unfolding ttl_or_default
normalize_ttl_default n limit cert_type p h short =
    let lifetime = IsLifetime-show_ℕ n limit p h short in
    (
      (normalize_ttl_iff none (pos n) (pos limit) cert_type _).1 (refl, lifetime),
      (normalize_ttl_iff (some []) (pos n) (pos limit) cert_type _).1 (refl, lifetime),
    )

not-IsLifetime-nil : (max_hours : ℤ) → ¬ IsLifetime max_hours []
unfolding match_ttl
not-IsLifetime-nil max_hours h = let (f, e, g) = IsLifetime-IsRead max_hours [] h in cc

-- An accepted lifetime is accepted again, whatever the default.
normalize_ttl_again :
    (ttl : Option Text) (default_hours other_hours max_hours : ℤ) (cert_type : CertType) (r : Text)
    → normalize_ttl ttl default_hours max_hours cert_type ≡ ok r
    → normalize_ttl (some r) other_hours max_hours cert_type ≡ ok r
unfolding ttl_or_default
normalize_ttl_again ttl default_hours other_hours max_hours cert_type [] e = absurd (
    not-IsLifetime-nil max_hours
      ((normalize_ttl_iff ttl default_hours max_hours cert_type []).0 e).1)
normalize_ttl_again ttl default_hours other_hours max_hours cert_type (c ∷ r) e =
    (normalize_ttl_iff (some (c ∷ r)) other_hours max_hours cert_type (c ∷ r)).1
      (refl, ((normalize_ttl_iff ttl default_hours max_hours cert_type (c ∷ r)).0 e).1)
