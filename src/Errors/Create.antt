-- ===== src/Errors/Create.antt =====
-- src/spooled/errors.py: `create_error_from_response`. Its parameters are those of
-- `Errors.Response`: Python's readers, the clock, and the headers as a mapping.
use spooled_sdk_python.Prelude.{
  ℕ, ◌==◌, leb, ltb, ◌&&◌, Option, none, some, Str, codes, strip, [], ◌∷◌, if◌then◌else◌,
}
use spooled_sdk_python.Prelude.Int.{ℤ, pos, negsuc}
use spooled_sdk_python.Json.{Value, null, str, obj, get_or}
use spooled_sdk_python.Errors.{
  Result, ok, raised, ◌>>=◌, value_error, SpooledError, Quota, Info, base, validation_error,
  quota_exceeded_error, authentication_error, authorization_error, not_found_error, conflict_error,
  payload_too_large_error, rate_limit_error, server_error, spooled_error,
}
use spooled_sdk_python.Errors.Response.{
  Headers, Readers, header_get, parse_retry_after, parse_int_header, is_quota_response,
}

-- `code`, `message` and `details` of a body.
unfoldable pub body_info : Value → Option Str → Info
body_info (obj b) rid = record {
  message = get_or (codes "message") (str (codes "Unknown error")) b;
  code = get_or (codes "code") (str (codes "unknown_error")) b;
  details = get_or (codes "details") null b;
  request_id = rid;
}
body_info (str (c ∷ s)) rid = record {
  message = str (c ∷ s);
  code = str (codes "unknown_error");
  details = null;
  request_id = rid;
}
body_info _ rid = record {
  message = str (codes "Unknown error");
  code = str (codes "unknown_error");
  details = null;
  request_id = rid;
}

-- The plan limit's fields of a body that is a dict; None for each that is missing.
unfoldable pub body_quota : Value → Quota
body_quota (obj b) = record {
  resource = get_or (codes "resource") null b;
  current = get_or (codes "current") null b;
  limit = get_or (codes "limit") null b;
  plan = get_or (codes "plan") null b;
  upgrade_to = get_or (codes "upgrade_to") null b;
}
body_quota _ = record {
  resource = null;
  current = null;
  limit = null;
  plan = null;
  upgrade_to = null;
}

-- `datetime.fromtimestamp(epoch, tz=timezone.utc)`: a `datetime` has the years 1 to 9999, and
-- Python raises for any other (a ValueError, or for the largest values another exception).
unfoldable pub from_timestamp : ℤ → Result ℤ
from_timestamp (pos n) = if ltb n 253402300800 then ok (pos n) else raised value_error
from_timestamp (negsuc n) = if ltb n 62135596800 then ok (negsuc n) else raised value_error

unfoldable pub parse_reset : Option ℤ → Result (Option ℤ)
unfolding from_timestamp
parse_reset none = ok none
parse_reset (some epoch) = do t ← from_timestamp epoch; ok (some t)

-- `if scope: … scope.strip()`.
unfoldable pub parse_scope : Option Str → Option Str
parse_scope none = none
parse_scope (some []) = none
parse_scope (some (c ∷ s)) = some (strip (c ∷ s))

abbrev pub or_sixty : Option ℕ → ℕ
or_sixty none = 60
or_sixty (some n) = n

-- The branch of `RateLimitError`, whose `retry_after` is 60 where no header gives one.
unfoldable pub rate_limit_response : Readers → ℕ → Headers → Info → Result SpooledError
unfolding parse_reset parse_scope rate_limit_error
rate_limit_response r now hs i = do
  retry_after ← parse_retry_after r now (header_get hs (codes "Retry-After"))
  reset ← parse_reset (parse_int_header (header_get hs (codes "X-RateLimit-Reset")))
  ok (
      rate_limit_error
        (record {
          retry_after = or_sixty retry_after;
          limit = parse_int_header (header_get hs (codes "X-RateLimit-Limit"));
          remaining = parse_int_header (header_get hs (codes "X-RateLimit-Remaining"));
          reset = reset;
          scope = parse_scope (header_get hs (codes "X-RateLimit-Scope"));
        })
        i)

-- `create_error_from_response`; a missing body is `null`, missing headers are none.
unfoldable pub create_error_from_response :
    Readers → ℕ → ℕ → Value → Option Str → Headers → Result SpooledError
unfolding validation_error quota_exceeded_error authentication_error authorization_error
    not_found_error conflict_error payload_too_large_error server_error spooled_error
create_error_from_response r now status body rid hs =
    let i = body_info body rid in
    let quota = is_quota_response i.code body (header_get hs (codes "Retry-After")) in
    if status == 422
    then ok (validation_error 422 i)
    else if status == 429 && quota
    then ok
        (quota_exceeded_error (body_quota body) (record i { code = str (codes "QUOTA_EXCEEDED") }))
    else if status == 400
    then ok (validation_error 400 i)
    else if status == 401
    then ok (authentication_error i)
    else if status == 403
    then ok (authorization_error i)
    else if status == 404
    then ok (not_found_error i)
    else if status == 409
    then ok (conflict_error i)
    else if status == 413
    then ok (payload_too_large_error i)
    else if status == 429
    then rate_limit_response r now hs i
    else if leb 500 status && ltb status 600
    then ok (server_error status i)
    else ok (spooled_error base status i)
