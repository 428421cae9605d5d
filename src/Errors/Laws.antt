-- ===== src/Errors/Laws.antt =====
-- src/spooled/errors.py: what the errors promise of retries, statuses and leases.
use spooled_sdk_python.Prelude.{
  ℕ, ◌==◌, ◌≤◌, leb, ltb, true, false, ◌&&◌, ◌||◌, Option, none, some, Str, codes, str_eq, lower,
  arith, ◌≡◌, ◌≢◌, refl, not, is_some, any, strip, [], ◌∷◌, ◌⊎◌, Bool-cases, Option-cases,
  eq_of_str_eq, str_eq_refl, sym, inl, inr, ◌↔◌,
}
use spooled_sdk_python.Prelude.Int.{pos}
use spooled_sdk_python.Json.{Value, str}
use spooled_sdk_python.Errors.{
  ok, raised, value_error, attribute_error, overflow_error, spooled, SpooledError, conflict_error,
  is_retryable, is_lease_expired, lease_expired_code, is_ok, ok_of_is_ok, Info,
}
use spooled_sdk_python.Errors.Response.{
  Headers, Readers, infinite, header_get, header_exact, header_scan, parse_retry_after,
  parse_int_header, is_quota_response,
}
use spooled_sdk_python.Errors.Create.{
  create_error_from_response, rate_limit_response, body_info, parse_reset,
}

rate_limit_response_lem :
    (r : Readers) (now : ℕ) (hs : Headers) (i : Info) (e : SpooledError)
    → rate_limit_response r now hs i ≡ ok e
    → (e.status_code ≡ 429) × (is_retryable e ≡ true)
unfolding rate_limit_response is_retryable
rate_limit_response_lem r now hs i e h = ground arith

-- Whatever the response, the error that is created carries its status.
pub status-create_error_from_response :
    (r : Readers) (now status : ℕ) (body : Value) (rid : Option Str) (hs : Headers)
    (e : SpooledError)
    → create_error_from_response r now status body rid hs ≡ ok e
    → e.status_code ≡ status
unfolding create_error_from_response
status-create_error_from_response r now status body rid hs e h =
    ground (arith, rate_limit_response_lem r now hs (body_info body rid) e)

-- The error that is created says that it is retryable exactly if the status is 408, a 5xx, or a
-- 429 that is no plan limit.
pub is_retryable-create_error_from_response :
    (r : Readers) (now status : ℕ) (body : Value) (rid : Option Str) (hs : Headers)
    (e : SpooledError)
    → create_error_from_response r now status body rid hs ≡ ok e
    → is_retryable e ≡ (
        status == 408
        || (leb 500 status && ltb status 600)
        || (status == 429
            && not (
                is_quota_response
                  (body_info body rid).code
                  body
                  (header_get hs (codes "Retry-After")))))
unfolding create_error_from_response is_retryable
is_retryable-create_error_from_response r now status body rid hs e h =
    ground (arith, rate_limit_response_lem r now hs (body_info body rid) e)

-- For a status other than 429 an error is always created: nothing is raised on the way.
pub create_error_from_response_total :
    (r : Readers) (now status : ℕ) (body : Value) (rid : Option Str) (hs : Headers)
    → status ≢ 429
    → (e : SpooledError) × (create_error_from_response r now status body rid hs ≡ ok e)
unfolding create_error_from_response
create_error_from_response_total r now status body rid hs h = ok_of_is_ok _ (ground arith)

parse_retry_after-cases :
    (r : Readers) (now : ℕ) (v : Option Str)
    → (is_ok (parse_retry_after r now v) ≡ true)
      ⊎ (parse_retry_after r now v ≡ raised overflow_error)
unfolding parse_retry_after
parse_retry_after-cases r now none = inl refl
parse_retry_after-cases r now (some v) = ground arith

parse_reset_far : (n : ℕ) → 253402300800 ≤ n → parse_reset (some (pos n)) ≡ raised value_error
unfolding parse_reset
parse_reset_far n h = ground arith

-- A 429 that is no plan limit, and whose reset time is readable and lies past the year 9999 (such
-- as one in milliseconds), raises a ValueError or OverflowError in place of the rate limit error.
pub create_error_from_response_far_reset :
    (r : Readers) (now : ℕ) (body : Value) (rid : Option Str) (hs : Headers) (n : ℕ)
    → is_quota_response (body_info body rid).code body (header_get hs (codes "Retry-After")) ≡ false
    → parse_int_header (header_get hs (codes "X-RateLimit-Reset")) ≡ some (pos n)
    → 253402300800 ≤ n
    → (create_error_from_response r now 429 body rid hs ≡ raised value_error)
      ⊎ (create_error_from_response r now 429 body rid hs ≡ raised overflow_error)
unfolding create_error_from_response rate_limit_response
create_error_from_response_far_reset r now body rid hs n q e h = ground (
  arith,
  parse_retry_after-cases r now (header_get hs (codes "Retry-After")),
  parse_reset_far n h,
)

-- A 429 that is no plan limit, and whose `Retry-After` reads as an infinite float (`inf`, `1e999`),
-- raises an OverflowError in place of the rate limit error.
pub create_error_from_response_infinite :
    (r : Readers) (now : ℕ) (body : Value) (rid : Option Str) (hs : Headers) (v : Str) (c : ℕ)
    (t : Str)
    → is_quota_response (body_info body rid).code body (header_get hs (codes "Retry-After")) ≡ false
    → header_get hs (codes "Retry-After") ≡ some v
    → strip v ≡ c ∷ t
    → r.read_float (c ∷ t) ≡ infinite
    → create_error_from_response r now 429 body rid hs ≡ raised overflow_error
unfolding create_error_from_response rate_limit_response parse_retry_after
create_error_from_response_infinite r now body rid hs v c t q h e f = ground arith

header_exact-any :
    (hs : Headers) (name v : Str)
    → header_exact name hs ≡ some v
    → any (λ h. str_eq (lower h.0) (lower name)) hs ≡ true
unfolding header_exact
header_exact-any [] name v h = cc
header_exact-any ((k, w) ∷ hs) name v h = elim (Bool-cases (str_eq k name)) [
  | inl same ↦ rw (eq_of_str_eq k name same, str_eq_refl (lower name))
  | inr other ↦ ground (arith, other, header_exact-any hs name v)
]

is_some-header_scan :
    (hs : Headers) (lowered : Str)
    → is_some (header_scan lowered hs) ≡ any (λ h. str_eq (lower h.0) lowered) hs
unfolding header_scan
is_some-header_scan [] lowered = refl
is_some-header_scan ((k, v) ∷ hs) lowered = ground (arith, is_some-header_scan hs lowered)

-- A header is found exactly if some name in the mapping reads the same but for case.
pub header_get-any_case :
    (hs : Headers) (name : Str)
    → is_some (header_get hs name) ≡ any (λ h. str_eq (lower h.0) (lower name)) hs
unfolding header_get
header_get-any_case hs name = elim (Option-cases (header_exact name hs)) [
  | inl absent ↦ rw (absent, header_get) (is_some-header_scan hs (lower name))
  | inr (v, found) ↦ rw (found, header_get) (sym (header_exact-any hs name v found))
]

lease_expired_code_raises :
    (code : Value)
    → (lease_expired_code true code ≡ raised attribute_error) ↔ ((s : Str) → code ≢ str s)
unfolding lease_expired_code
lease_expired_code_raises (str s) = (λ h t e. cc, λ h. absurd (h s refl))
lease_expired_code_raises code = (λ h t e. cc, λ h. refl)

-- On a 409 that the SDK built, the test for a lost lease raises an AttributeError exactly if the
-- body's `code` is present and no text (`null` among these).
pub is_lease_expired_raises :
    (i : Info)
    → (is_lease_expired (spooled (conflict_error i)) ≡ raised attribute_error)
      ↔ ((s : Str) → i.code ≢ str s)
unfolding is_lease_expired conflict_error
is_lease_expired_raises i = lease_expired_code_raises i.code
