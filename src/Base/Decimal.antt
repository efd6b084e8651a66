-- ===== src/Base/Decimal.antt =====
-- Decimal numbers in texts: `str(n)`, and the digits that `\d` matches and `int` reads.
use Prim.Native.Nat.{ℕ, zero, suc, ◌+◌, ◌-◌, ◌*◌, ◌/◌, ◌%◌, ◌^◌, ◌≤◌, ◌<◌}
use native.Mathlib.Nat.{pow-suc}
use mathlib.Core.Path.{◌≡◌, refl, ap}
use mathlib.Core.Bool.{◌&&◌}
use mathlib.Core.Logic.{◌≢◌}
use mathlib.Core.Option.{Option, none, some}
use mathlib.Core.List.{List, [], ◌∷◌, ◌++◌, map}
use native.Mathlib.Omega.{arith}
use secure_sshlinux_client.Base.Tests.{leb, ◌==◌, if◌then◌else◌}
use secure_sshlinux_client.Base.Lists.{length, All}
use secure_sshlinux_client.Base.Int.{ℤ, pos, negsuc}
use secure_sshlinux_client.Base.Strings.{Text}

-- The digit zero of each script that has decimal digits (category Nd, Unicode 14); the digits of a
-- script stand in a row.
abbrev pub zero_digits : List ℕ
zero_digits =
    48 ∷ 1632 ∷ 1776 ∷ 1984 ∷ 2406 ∷ 2534 ∷ 2662 ∷ 2790 ∷ 2918 ∷ 3046 ∷ 3174 ∷ 3302 ∷ 3430 ∷ 3558
    ∷ 3664 ∷ 3792 ∷ 3872 ∷ 4160 ∷ 4240 ∷ 6112 ∷ 6160 ∷ 6470 ∷ 6608 ∷ 6784 ∷ 6800 ∷ 6992 ∷ 7088
    ∷ 7232 ∷ 7248 ∷ 42528 ∷ 43216 ∷ 43264 ∷ 43472 ∷ 43504 ∷ 43600 ∷ 44016 ∷ 65296 ∷ 66720 ∷ 68912
    ∷ 69734 ∷ 69872 ∷ 69942 ∷ 70096 ∷ 70384 ∷ 70736 ∷ 70864 ∷ 71248 ∷ 71360 ∷ 71472 ∷ 71904 ∷ 72016
    ∷ 72784 ∷ 73040 ∷ 73120 ∷ 92768 ∷ 92864 ∷ 93008 ∷ 120782 ∷ 120792 ∷ 120802 ∷ 120812 ∷ 120822
    ∷ 123200 ∷ 123632 ∷ 125264 ∷ 130032 ∷ []

digit_in : List ℕ → ℕ → Option ℕ
digit_in [] c = none
digit_in (z ∷ zs) c = if leb z c && leb c (z + 9) then some (c - z) else digit_in zs c

-- The value of a decimal digit.
unfoldable pub digit_value : ℕ → Option ℕ
unfolding digit_in
digit_value = digit_in zero_digits

pub digit_value_ascii : (d : ℕ) → d < 10 → digit_value (48 + d) ≡ some d
unfolding digit_value
digit_value_ascii d h = ground arith

add_digit : ℕ → List ℕ × Text → List ℕ × Text
add_digit d (ds, rest) = (d ∷ ds, rest)

span_step : Option ℕ → ℕ → Text → List ℕ × Text → List ℕ × Text
span_step none c s found = ([], c ∷ s)
span_step (some d) c s found = add_digit d found

-- `\d*` at the start of a text: the values of the digits, and what follows.
unfoldable pub span_digits : Text → List ℕ × Text
unfolding span_step add_digit digit_value
span_digits [] = ([], [])
span_digits (c ∷ s) = span_step (digit_value c) c s (span_digits s)

-- The number that digits spell behind `n`.
unfoldable pub number_from : ℕ → List ℕ → ℕ
number_from n [] = n
number_from n (d ∷ ds) = number_from (n * 10 + d) ds

-- The digits of `n` before `ds`; `n` itself is enough fuel.
digits_before : ℕ → ℕ → List ℕ → List ℕ
digits_before zero n ds = ds
digits_before (suc fuel) n ds =
    let more = digits_before fuel (n / 10) ((n % 10) ∷ ds) in if n == 0 then ds else more

pub digits_of : ℕ → List ℕ
digits_of n = if n == 0 then 0 ∷ [] else digits_before n n []

-- `str(n)`
unfoldable pub show_ℕ : ℕ → Text
unfolding digits_of digits_before
show_ℕ n = map (λ d. 48 + d) (digits_of n)

unfoldable pub show_ℤ : ℤ → Text
unfolding show_ℕ
show_ℤ (pos n) = show_ℕ n
show_ℤ (negsuc n) = b'-' ∷ show_ℕ (suc n)

number_from-digits_before :
    (fuel n : ℕ) (ds : List ℕ)
    → n ≤ fuel
    → number_from 0 (digits_before fuel n ds) ≡ number_from n ds
unfolding digits_before number_from
number_from-digits_before zero n ds h = ap (λ k. number_from k ds) (omega arith)
number_from-digits_before (suc fuel) n ds h =
    ground (arith, number_from-digits_before fuel (n / 10) ((n % 10) ∷ ds))

-- Reading the digits of a number gives the number back.
pub number_from-digits_of : (n : ℕ) → number_from 0 (digits_of n) ≡ n
unfolding digits_of
number_from-digits_of n = unfold number_from in ground (arith, number_from-digits_before n n [])

digits_before-All :
    (fuel n : ℕ) (ds : List ℕ) → All (λ d. d < 10) ds → All (λ d. d < 10) (digits_before fuel n ds)
unfolding digits_before
digits_before-All zero n ds h = h
digits_before-All (suc fuel) n ds h =
    ground (arith, digits_before-All fuel (n / 10) ((n % 10) ∷ ds))

pub digits_of-All : (n : ℕ) → All (λ d. d < 10) (digits_of n)
unfolding digits_of
digits_of-All n = ground (arith, digits_before-All n n [])

length-digits_before :
    (k fuel n : ℕ) (ds : List ℕ) → n < 10 ^ k → length (digits_before fuel n ds) ≤ k + length ds
unfolding digits_before
length-digits_before k zero n ds h = omega arith
length-digits_before zero (suc fuel) n ds h = ground arith
length-digits_before (suc k) (suc fuel) n ds h =
    ground (arith, pow-suc 10 k, length-digits_before k fuel (n / 10) ((n % 10) ∷ ds))

-- A number below a power of ten has no more digits than the exponent.
pub length-digits_of : (k n : ℕ) → n < 10 ^ suc k → length (digits_of n) ≤ suc k
unfolding digits_of
length-digits_of k n h = ground (arith, length-digits_before (suc k) n n [])

-- The digits that `str` prints are matched to the last, where no digit follows.
pub span_digits-map :
    (ds : List ℕ) (c : ℕ) (s : Text)
    → All (λ d. d < 10) ds
    → digit_value c ≡ none
    → span_digits (map (λ d. 48 + d) ds ++ c ∷ s) ≡ (ds, c ∷ s)
unfolding span_digits
span_digits-map [] c s h e = rw e refl
span_digits-map (d ∷ ds) c s (p, h) e = rw (digit_value_ascii d p, span_digits-map ds c s h e) refl

digits_before-ne-nil : (fuel n : ℕ) (ds : List ℕ) → ds ≢ [] → digits_before fuel n ds ≢ []
unfolding digits_before
digits_before-ne-nil zero n ds h = h
digits_before-ne-nil (suc fuel) n ds h =
    ground (arith, digits_before-ne-nil fuel (n / 10) ((n % 10) ∷ ds))

digits_before-pos : (fuel n : ℕ) (ds : List ℕ) → 0 < fuel → 0 < n → digits_before fuel n ds ≢ []
unfolding digits_before
digits_before-pos zero n ds h p = absurd (omega arith)
digits_before-pos (suc fuel) n ds h p =
    ground (arith, digits_before-ne-nil fuel (n / 10) ((n % 10) ∷ ds))

-- A printed number has a digit.
pub digits_of-ne-nil : (n : ℕ) → digits_of n ≢ []
unfolding digits_of
digits_of-ne-nil n = ground (arith, digits_before-pos n n [])
