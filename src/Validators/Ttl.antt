-- ===== src/Validators/Ttl.antt =====
-- `normalize_ttl` of app/utils/validators.py.
pub mod Spelled
pub mod Bounds
use secure_sshlinux_client.Base.{
  ℕ, ◌+◌, ◌-◌, ◌*◌, ◌^◌, Bool, true, false, not, ◌&&◌, Option, none, some, List, [], ◌∷◌, ◌++◌, leb,
  ltb, ◌==◌, if◌then◌else◌, length, Text, codes, ℤ, pos, negsuc, show_ℤ, span_digits, number_from,
}
use secure_sshlinux_client.Errors.{
  CertType, user, host, Result, ok, raised, ◌>>=◌, ◌>>◌, require, api_error, null, value_error,
  overflow_error, ttl_invalid, ttl_too_large,
}

pub data TtlUnit : Type 0 where
  minutes hours days : TtlUnit

-- `[mhd]$` after the digits
unfoldable pub unit_of : Text → Option TtlUnit
unit_of (c ∷ []) =
    if c == b'm'
    then some minutes
    else if c == b'h'
    then some hours
    else if c == b'd'
    then some days
    else none
unit_of _ = none

unfoldable pub with_digits : List ℕ → Option TtlUnit → Option (List ℕ × TtlUnit)
with_digits [] unit = none
with_digits (d ∷ ds) none = none
with_digits (d ∷ ds) (some unit) = some (d ∷ ds, unit)

-- `TTL_PATTERN.fullmatch`: the values of the digits, and the unit.
unfoldable pub match_ttl : Text → Option (List ℕ × TtlUnit)
unfolding with_digits unit_of span_digits
match_ttl s = let (ds, rest) = span_digits s in with_digits ds (unit_of rest)

-- `int` reads no more digits than this (`sys.get_int_max_str_digits()`).
abbrev pub max_int_digits : ℕ
max_int_digits = 4300

-- From this quotient on `value / 60` raises `OverflowError`: it would round to 2 ^ 1024.
unfoldable pub float_overflow : ℕ → Bool
float_overflow value = leb (60 * (2 ^ 1024 - 2 ^ 970)) value

-- `value / 60` for minutes, `value` for hours, `value * 24` for days: sixty times `ttl_hours`, so that
-- the quotient is exact. Python's comparison of the rounded quotient with an integer agrees with this
-- one for every `max_hours` below 2 ^ 46.
unfoldable pub ttl_minutes : ℕ → TtlUnit → ℕ
ttl_minutes value minutes = value
ttl_minutes value hours = value * 60
ttl_minutes value days = value * 24 * 60

-- `ttl_hours > max_hours`
unfoldable pub exceeds : ℕ → ℤ → Bool
exceeds total (pos max_hours) = ltb (max_hours * 60) total
exceeds total (negsuc n) = true

unfoldable pub divides_to_float : ℕ → TtlUnit → Bool
unfolding float_overflow
divides_to_float value minutes = not (float_overflow value)
divides_to_float value hours = true
divides_to_float value days = true

abbrev pub spelling : CertType → Text
spelling user = codes "user"
spelling host = codes "host"

abbrev too_large_message : CertType → ℤ → Text
too_large_message cert_type max_hours =
    spelling cert_type ++ codes " ttl exceeds max allowed " ++ show_ℤ max_hours ++ codes "h"

-- `if ttl is None or ttl == "": ttl = f"{default_hours}h"`
unfoldable pub ttl_or_default : Option Text → ℤ → Text
unfolding show_ℤ
ttl_or_default none default_hours = show_ℤ default_hours ++ codes "h"
ttl_or_default (some []) default_hours = show_ℤ default_hours ++ codes "h"
ttl_or_default (some (c ∷ s)) default_hours = c ∷ s

-- The checks on a text that matches the pattern.
unfoldable pub check_ttl : Text → Option (List ℕ × TtlUnit) → ℤ → CertType → Result Text
unfolding number_from ttl_minutes exceeds divides_to_float
check_ttl ttl none max_hours cert_type =
    raised (api_error 422 ttl_invalid (codes "ttl must look like 30m, 12h, or 7d") null)
check_ttl ttl (some (digits, unit)) max_hours cert_type = do
  require (leb (length digits) max_int_digits) value_error
  let value = number_from 0 digits
  require (divides_to_float value unit) overflow_error
  require (ltb 0 (ttl_minutes value unit))
      (api_error 422 ttl_invalid (codes "ttl must be positive") null)
  require (not (exceeds (ttl_minutes value unit) max_hours))
      (api_error 422 ttl_too_large (too_large_message cert_type max_hours) null)
  ok ttl

unfoldable pub normalize_ttl :
    (ttl : Option Text) (default_hours max_hours : ℤ) (cert_type : CertType) → Result Text
unfolding ttl_or_default match_ttl check_ttl
normalize_ttl ttl default_hours max_hours cert_type =
    let text = ttl_or_default ttl default_hours in
    check_ttl text (match_ttl text) max_hours cert_type
