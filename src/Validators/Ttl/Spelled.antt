-- ===== src/Validators/Ttl/Spelled.antt =====
-- Which texts spell a lifetime, and what the limits of `normalize_ttl` say of it, in plain arithmetic.
use secure_sshlinux_client.Base.{
  ℕ, ◌-◌, ◌*◌, ◌^◌, ◌≤◌, ◌<◌, ◌≡◌, ◌≢◌, refl, ap, ◌∙◌, true, false, not, Option, none, some, List,
  [], ◌∷◌, ◌++◌, map, arith, leb, length, Option-cases, inl, inr, Text, ℤ, pos, negsuc, span_digits,
  digit_value, number_from,
}
use secure_sshlinux_client.Validators.Ttl.{
  TtlUnit, minutes, hours, days, unit_of, with_digits, match_ttl, max_int_digits, float_overflow,
  ttl_minutes, exceeds, divides_to_float,
}

abbrev pub letter_of : TtlUnit → ℕ
letter_of minutes = b'm'
letter_of hours = b'h'
letter_of days = b'd'

-- The text is a row of decimal digits with these values, one at least, and then the letter of the unit.
abbrev pub Spells : Text → List ℕ → TtlUnit → Type 0
Spells text digits unit =
    (letters : Text) × (text ≡ letters ++ letter_of unit ∷ [])
    × (map digit_value letters ≡ map some digits)
    × (digits ≢ [])

-- So many minutes, hours or days are at most so many hours.
abbrev pub IsAtMost : TtlUnit → ℕ → ℤ → Type 0
IsAtMost unit value (negsuc n) = ⊥
IsAtMost minutes value (pos max_hours) = value ≤ max_hours * 60
IsAtMost hours value (pos max_hours) = value ≤ max_hours
IsAtMost days value (pos max_hours) = value * 24 ≤ max_hours

-- So many minutes, divided by 60, are below what a float holds.
abbrev pub FitsFloat : TtlUnit → ℕ → Type 0
FitsFloat minutes value = value < 60 * (2 ^ 1024 - 2 ^ 970)
FitsFloat hours value = Unit
FitsFloat days value = Unit

-- The text spells a positive lifetime of at most so many hours, in at most 4300 digits.
abbrev pub IsLifetime : ℤ → Text → Type 0
IsLifetime max_hours text =
    (digits : List ℕ) × (unit : TtlUnit) × Spells text digits unit
    × (length digits ≤ max_int_digits)
    × (0 < number_from 0 digits)
    × FitsFloat unit (number_from 0 digits)
    × IsAtMost unit (number_from 0 digits) max_hours

-- The lifetime that the code reads passes its checks.
abbrev pub IsWithin : ℤ → List ℕ × TtlUnit → Type 0
IsWithin max_hours (digits, unit) =
    (length digits ≤ max_int_digits)
    × (divides_to_float (number_from 0 digits) unit ≡ true)
    × (0 < ttl_minutes (number_from 0 digits) unit)
    × (exceeds (ttl_minutes (number_from 0 digits) unit) max_hours ≡ false)

abbrev pub IsRead : ℤ → Text → Type 0
IsRead max_hours ttl =
    (found : List ℕ × TtlUnit) × (match_ttl ttl ≡ some found) × IsWithin max_hours found

span_digits-letters :
    (s : Text)
    → (letters : Text) × (s ≡ letters ++ (span_digits s).1)
      × (map digit_value letters ≡ map some (span_digits s).0)
unfolding span_digits
span_digits-letters [] = ([], refl, refl)
span_digits-letters (c ∷ s) = elim (Option-cases (digit_value c)) [
  | inl n ↦ rw n ([], refl, refl)
  | inr (d, v) ↦
      let (letters, same, values) = span_digits-letters s in
      rw v (c ∷ letters, ap (λ t. c ∷ t) same, rw v (ap (λ ds. some d ∷ ds) values))
]

unit_of-letter :
    (rest : Text) (unit : TtlUnit) → unit_of rest ≡ some unit → rest ≡ letter_of unit ∷ []
unfolding unit_of
unit_of-letter [] unit h = cc h
unit_of-letter (c ∷ []) minutes h = ground arith
unit_of-letter (c ∷ []) hours h = ground arith
unit_of-letter (c ∷ []) days h = ground arith
unit_of-letter (c ∷ d ∷ s) unit h = cc h

with_digits-inverse :
    (found ds : List ℕ) (read : Option TtlUnit) (unit : TtlUnit)
    → with_digits found read ≡ some (ds, unit)
    → (found ≡ ds) × (read ≡ some unit) × (ds ≢ [])
unfolding with_digits
with_digits-inverse [] ds read unit h = cc h
with_digits-inverse (d ∷ found) ds none unit h = cc h
with_digits-inverse (d ∷ found) ds (some read) unit h = (cc h, cc h, λ e. cc)

match_ttl-Spells :
    (s : Text) (ds : List ℕ) (unit : TtlUnit) → match_ttl s ≡ some (ds, unit) → Spells s ds unit
unfolding match_ttl
match_ttl-Spells s ds unit h =
    let (same, read, some_digit) =
      with_digits-inverse (span_digits s).0 ds (unit_of (span_digits s).1) unit h in
    let (letters, split, values) = span_digits-letters s in
    (
      letters,
      split ∙ ap (λ rest. letters ++ rest) (unit_of-letter (span_digits s).1 unit read),
      values ∙ ap (map some) same,
      some_digit,
    )

letter_of-none : (unit : TtlUnit) → digit_value (letter_of unit) ≡ none
unfolding digit_value
letter_of-none minutes = refl
letter_of-none hours = refl
letter_of-none days = refl

unit_of-letter_of : (unit : TtlUnit) → unit_of (letter_of unit ∷ []) ≡ some unit
unfolding unit_of
unit_of-letter_of minutes = refl
unit_of-letter_of hours = refl
unit_of-letter_of days = refl

span_digits-spelled :
    (letters : Text) (ds : List ℕ) (unit : TtlUnit)
    → map digit_value letters ≡ map some ds
    → span_digits (letters ++ letter_of unit ∷ []) ≡ (ds, letter_of unit ∷ [])
unfolding span_digits
span_digits-spelled [] [] unit h = rw (letter_of-none unit) refl
span_digits-spelled [] (d ∷ ds) unit h = cc h
span_digits-spelled (c ∷ letters) [] unit h = cc h
span_digits-spelled (c ∷ letters) (d ∷ ds) unit h =
    let first : digit_value c ≡ some d = cc h in
    let rest : map digit_value letters ≡ map some ds = cc h in
    rw (first, span_digits-spelled letters ds unit rest) refl

pub with_digits-some :
    (ds : List ℕ) (unit : TtlUnit) → ds ≢ [] → with_digits ds (some unit) ≡ some (ds, unit)
unfolding with_digits
with_digits-some [] unit h = absurd (h refl)
with_digits-some (d ∷ ds) unit h = refl

Spells-match_ttl :
    (s : Text) (ds : List ℕ) (unit : TtlUnit) → Spells s ds unit → match_ttl s ≡ some (ds, unit)
unfolding match_ttl
Spells-match_ttl s ds unit (letters, same, values, some_digit) =
    rw (same, span_digits-spelled letters ds unit values, unit_of-letter_of unit)
      (with_digits-some ds unit some_digit)

below : (limit value : ℕ) → not (leb limit value) ≡ true → value < limit
below limit value h = ground arith

under : (limit value : ℕ) → value < limit → not (leb limit value) ≡ true
under limit value h = ground arith

divides_to_float-FitsFloat :
    (value : ℕ) (unit : TtlUnit) → divides_to_float value unit ≡ true → FitsFloat unit value
unfolding divides_to_float float_overflow
divides_to_float-FitsFloat value minutes h = below _ value h
divides_to_float-FitsFloat value hours h = tt
divides_to_float-FitsFloat value days h = tt

FitsFloat-divides_to_float :
    (value : ℕ) (unit : TtlUnit) → FitsFloat unit value → divides_to_float value unit ≡ true
unfolding divides_to_float float_overflow
FitsFloat-divides_to_float value minutes h = under _ value h
FitsFloat-divides_to_float value hours h = refl
FitsFloat-divides_to_float value days h = refl

exceeds-IsAtMost :
    (value : ℕ) (unit : TtlUnit) (max_hours : ℤ)
    → exceeds (ttl_minutes value unit) max_hours ≡ false
    → IsAtMost unit value max_hours
unfolding exceeds ttl_minutes
exceeds-IsAtMost value minutes (pos m) h = ground arith
exceeds-IsAtMost value hours (pos m) h = ground arith
exceeds-IsAtMost value days (pos m) h = ground arith
exceeds-IsAtMost value unit (negsuc n) h = cc h

IsAtMost-exceeds :
    (value : ℕ) (unit : TtlUnit) (max_hours : ℤ)
    → IsAtMost unit value max_hours
    → exceeds (ttl_minutes value unit) max_hours ≡ false
unfolding exceeds ttl_minutes
IsAtMost-exceeds value minutes (pos m) h = ground arith
IsAtMost-exceeds value hours (pos m) h = ground arith
IsAtMost-exceeds value days (pos m) h = ground arith
IsAtMost-exceeds value unit (negsuc n) h = absurd h

ttl_minutes-pos : (value : ℕ) (unit : TtlUnit) → 0 < ttl_minutes value unit → 0 < value
unfolding ttl_minutes
ttl_minutes-pos value minutes h = h
ttl_minutes-pos value hours h = omega arith
ttl_minutes-pos value days h = omega arith

pos-ttl_minutes : (value : ℕ) (unit : TtlUnit) → 0 < value → 0 < ttl_minutes value unit
unfolding ttl_minutes
pos-ttl_minutes value minutes h = h
pos-ttl_minutes value hours h = omega arith
pos-ttl_minutes value days h = omega arith

-- What the code reads and lets pass is a lifetime, and it reads and lets pass every lifetime.
pub IsRead-IsLifetime : (max_hours : ℤ) (s : Text) → IsRead max_hours s → IsLifetime max_hours s
IsRead-IsLifetime max_hours s ((ds, unit), found, (short, fits, positive, most)) =
    let value = number_from 0 ds in
    (
      ds,
      unit,
      match_ttl-Spells s ds unit found,
      short,
      ttl_minutes-pos value unit positive,
      divides_to_float-FitsFloat value unit fits,
      exceeds-IsAtMost value unit max_hours most,
    )

pub IsLifetime-IsRead : (max_hours : ℤ) (s : Text) → IsLifetime max_hours s → IsRead max_hours s
IsLifetime-IsRead max_hours s (ds, unit, spells, short, positive, fits, most) =
    let value = number_from 0 ds in
    (
      (ds, unit),
      Spells-match_ttl s ds unit spells,
      (
        short,
        FitsFloat-divides_to_float value unit fits,
        pos-ttl_minutes value unit positive,
        IsAtMost-exceeds value unit max_hours most,
      ),
    )
