-- ===== src/Errors/Response.antt =====
-- src/spooled/errors.py, from `_header_get` to `create_error_from_response`: the error for a
-- response that is not a success. `float()` and the parser of HTTP dates are the parameters
-- `Readers`; `now` is the clock. Headers are a mapping with distinct keys.
use spooled_sdk_python.Prelude.{
  ℕ, zero, suc, ◌+◌, ◌-◌, ◌*◌, ◌==◌, Bool, true, false, ◌&&◌, ◌||◌, Option, none, some, List, [],
  ◌∷◌, Str, codes, str_eq, lower, upper, strip, is_digit, is_some, if◌then◌else◌,
}
use spooled_sdk_python.Prelude.Int.{ℤ, pos, negsuc, pos_part}
use spooled_sdk_python.Json.{Value, str, obj, get, has}
use spooled_sdk_python.Errors.{Result, ok, raised, overflow_error}

abbrev pub Headers : Type 0
Headers = List (Str × Str)

-- `headers.get(name)` of a plain dict.
unfoldable pub header_exact : Str → Headers → Option Str
header_exact name [] = none
header_exact name ((k, v) ∷ hs) = if str_eq k name then some v else header_exact name hs

-- The manual scan.
unfoldable pub header_scan : Str → Headers → Option Str
header_scan lowered [] = none
header_scan lowered ((k, v) ∷ hs) =
    if str_eq (lower k) lowered then some v else header_scan lowered hs

-- `_header_get`.
unfoldable pub header_get : Headers → Str → Option Str
unfolding header_exact header_scan
header_get hs name = elim (header_exact name hs) [
  | some v ↦ some v
  | none ↦ header_scan (lower name) hs
]

-- What `float(s)` gives: a finite number, of which `int()` takes the whole part; an infinity; a
-- NaN; or a ValueError.
pub data Reading : Type 0 where
  finite : ℤ → Reading
  infinite not_a_number malformed : Reading

-- Python's own readers: `float`, and `email.utils.parsedate_to_datetime` as Unix seconds (UTC
-- where the date names no zone), none for what it rejects.
pub record Readers : Type 0 where
  pub read_float : Str → Reading
  pub read_date : Str → Option ℤ

-- `max(0, int(delta))` for the time from `now` to `at`, both in Unix seconds. `now` is the clock
-- rounded up to a whole second, so that the difference is the whole part of `delta`.
unfoldable pub seconds_until : ℕ → ℤ → ℕ
seconds_until now at = pos_part at - now

unfoldable pub date_retry_after : Readers → ℕ → Str → Option ℕ
unfolding seconds_until
date_retry_after r now v = elim (r.read_date v) [
  | none ↦ none
  | some at ↦ some (seconds_until now at)
]

unfoldable pub stripped_retry_after : Readers → ℕ → Str → Result (Option ℕ)
unfolding date_retry_after
stripped_retry_after r now [] = ok none
stripped_retry_after r now (c ∷ s) = elim (r.read_float (c ∷ s)) [
  | finite i ↦ ok (some (pos_part i))
  | infinite ↦ raised overflow_error
  | not_a_number ↦ ok (date_retry_after r now (c ∷ s))
  | malformed ↦ ok (date_retry_after r now (c ∷ s))
]

-- `_parse_retry_after`. `int()` of an infinity is an OverflowError, which the code does not catch.
unfoldable pub parse_retry_after : Readers → ℕ → Option Str → Result (Option ℕ)
unfolding stripped_retry_after
parse_retry_after r now none = ok none
parse_retry_after r now (some v) = stripped_retry_after r now (strip v)

-- The digits of `int(s)`, with single underscores between them.
unfoldable pub read_digits : ℕ → Str → Option ℕ
read_digits acc [] = some acc
read_digits acc (c ∷ []) = if is_digit c then some (acc * 10 + (c - b'0')) else none
read_digits acc (c ∷ d ∷ s) =
    let next = read_digits (acc * 10 + (c - b'0')) (d ∷ s) in
    let skip = read_digits acc (d ∷ s) in
    if is_digit c then next else if c == b'_' && is_digit d then skip else none

unfoldable pub read_nat : Str → Option ℕ
unfolding read_digits
read_nat [] = none
read_nat (c ∷ s) = if is_digit c then read_digits 0 (c ∷ s) else none

abbrev pub to_negative : ℕ → ℤ
to_negative zero = pos 0
to_negative (suc n) = negsuc n

abbrev pub map_nat : (ℕ → ℤ) → Option ℕ → Option ℤ
map_nat f none = none
map_nat f (some n) = some (f n)

unfoldable pub read_signed : Str → Option ℤ
unfolding read_nat
read_signed [] = none
read_signed (c ∷ s) =
    if c == b'-'
    then map_nat to_negative (read_nat s)
    else if c == b'+'
    then map_nat pos (read_nat s)
    else map_nat pos (read_nat (c ∷ s))

-- `_parse_int_header`.
unfoldable pub parse_int_header : Option Str → Option ℤ
unfolding read_signed
parse_int_header none = none
parse_int_header (some v) = read_signed (strip v)

-- `body` is a dict with a plan limit's fields.
unfoldable pub limit_body : Value → Bool
limit_body (obj b) =
    (elim (get (codes "error") b) [ some (str s) ↦ str_eq s (codes "limit_exceeded") | _ ↦ false ])
    || (has (codes "resource") b && has (codes "limit") b && has (codes "plan") b)
limit_body _ = false

-- `str(code).upper() == "QUOTA_EXCEEDED"`: the text of a code that is no `str` never reads so.
unfoldable pub quota_code : Value → Bool
quota_code (str s) = str_eq (upper s) (codes "QUOTA_EXCEEDED")
quota_code _ = false

-- `_is_quota_response`.
unfoldable pub is_quota_response : Value → Value → Option Str → Bool
unfolding limit_body quota_code
is_quota_response code body retry_after =
    if quota_code code then true else if is_some retry_after then false else limit_body body
