-- ===== src/Http.antt =====
-- src/spooled/utils/http.py: the synchronous HTTP client, one request at a time. httpx is the
-- parameter `transport`, which may change any part of the state, as other threads do; so may the
-- token refresh. `Client` holds the attributes that a request reads or writes, `active` being this
-- thread's `_refresh_state`. Debug output is left out.
pub mod Pipeline
pub mod Sends
pub mod Outcomes
pub mod Flights
pub mod Async
mod Examples
use spooled_sdk_python.Prelude.{
  ℕ, ◌==◌, ◌&&◌, ◌||◌, not, Bool, true, false, Option, none, some, List, [], ◌∷◌, ◌++◌, Str, codes,
  str_eq, lower, upper, strip, is_true, is_set, starts_with, contains, str_mem, if◌then◌else◌,
}
use spooled_sdk_python.Prelude.Int.{ℤ}
use spooled_sdk_python.Json.{Value, null, obj, Fields, end, get_or, truthy}
use spooled_sdk_python.Errors.{Result, ok, raised}
use spooled_sdk_python.Errors.Response.{Headers, header_get, parse_int_header}
use spooled_sdk_python.Errors.Create.{from_timestamp, parse_scope}
use spooled_sdk_python.Casing.{convert_query_params, put_text}

-- `RateLimitInfo` of src/spooled/types/common.py; `reset` is in Unix seconds.
pub record RateLimitInfo : Type 0 where
  pub limit : Option ℤ
  pub remaining : Option ℤ
  pub reset_epoch : Option ℤ
  pub reset : Option ℤ
  pub scope : Option Str

abbrev pub or_none : Result ℤ → Option ℤ
or_none (ok t) = some t
or_none (raised e) = none

unfoldable pub safe_reset : Option ℤ → Option ℤ
unfolding from_timestamp
safe_reset none = none
safe_reset (some epoch) = or_none (from_timestamp epoch)

abbrev pub is_absent {ℓ} : {A : Type ℓ} → Option A → Bool
is_absent none = true
is_absent (some a) = false

-- `RateLimitInfo.from_headers`.
unfoldable pub from_headers : Headers → Option RateLimitInfo
unfolding safe_reset parse_scope
from_headers hs =
    let limit = parse_int_header (header_get hs (codes "X-RateLimit-Limit")) in
    let remaining = parse_int_header (header_get hs (codes "X-RateLimit-Remaining")) in
    let reset_epoch = parse_int_header (header_get hs (codes "X-RateLimit-Reset")) in
    let scope = header_get hs (codes "X-RateLimit-Scope") in
    if is_absent limit && is_absent remaining && is_absent reset_epoch && is_absent scope
    then none
    else some (record {
      limit = limit;
      remaining = remaining;
      reset_epoch = reset_epoch;
      reset = safe_reset reset_epoch;
      scope = parse_scope scope;
    })

unfoldable pub idempotent_methods : List Str
idempotent_methods =
    codes "GET" ∷ codes "HEAD" ∷ codes "PUT" ∷ codes "DELETE" ∷ codes "OPTIONS" ∷ []

-- `key.lower() == "idempotency-key" and value` for some header.
unfoldable pub has_key_header : Headers → Bool
has_key_header [] = false
has_key_header ((k, v) ∷ hs) =
    (str_eq (lower k) (codes "idempotency-key") && is_true v) || has_key_header hs

-- `bool(body.get("idempotency_key"))` for a dict.
unfoldable pub has_key_field : Value → Bool
has_key_field (obj fs) = truthy (get_or (codes "idempotency_key") null fs)
has_key_field _ = false

-- `_is_idempotent`.
unfoldable pub is_idempotent : Str → Value → Headers → Bool
unfolding has_key_header has_key_field idempotent_methods
is_idempotent method body headers =
    if str_mem (upper method) idempotent_methods
    then true
    else if has_key_header headers
    then true
    else has_key_field body

-- What a caller asks for; a missing body is `null`.
pub record Request : Type 0 where
  pub method : Str
  pub url : Str
  pub body : Value
  pub raw_body : Option Str
  pub headers : Headers
  pub timeout : Option ℕ
  pub skip_request_conversion : Bool
  pub skip_response_conversion : Bool
  pub with_headers : Bool

-- What httpx is called with; no timeout stands for its client's own.
pub record Call : Type 0 where
  pub method : Str
  pub url : Str
  pub headers : Headers
  pub json : Option Value
  pub content : Option Str
  pub timeout : Option ℕ

-- A response of httpx: `json` is what `response.json()` returns or raises.
pub record HttpResponse : Type 0 where
  pub status_code : ℕ
  pub is_success : Bool
  pub headers : Headers
  pub json : Result Value
  pub text : Str

-- What `httpx.Client.request` does: it returns, or raises a TimeoutException, or another
-- RequestError with a text.
pub data Answer : Type 0 where
  response : HttpResponse → Answer
  timeout_exception : Answer
  request_error : Str → Answer

pub data Payload : Type 0 where
  no_content : Payload
  json : Value → Payload
  text : Str → Payload

pub data Reply : Type 0 where
  plain : Payload → Reply
  headed : Payload → Headers → Reply

pub record Client : Type 0 where
  pub auth_token : Option Str
  pub rate_limit : Option RateLimitInfo
  pub active : Bool

-- `_build_url`; `encode` is urllib's `urlencode` and `text_of` is Python's `str`.
unfoldable pub build_url :
    (List (Str × Str) → Str) → (Value → Str) → Str → Str → Fields → Bool → Str
build_url encode text_of base path params skip_api_prefix =
    let full =
      if skip_api_prefix || starts_with (codes "/api/") path
      then path
      else codes "/api/v1" ++ path in
    let url = base ++ full in
    elim (convert_query_params text_of params []) [
      | [] ↦ url
      | p ∷ ps ↦ url ++ (codes "?" ++ encode (p ∷ ps))
    ]

-- `dict.update`.
unfoldable pub update_headers : Headers → Headers → Headers
update_headers hs [] = hs
update_headers hs ((k, v) ∷ more) = update_headers (put_text k v hs) more

-- `_build_headers`.
abbrev pub bearer : Option Str → Headers
bearer none = []
bearer (some []) = []
bearer (some (c ∷ s)) = (codes "Authorization", codes "Bearer " ++ (c ∷ s)) ∷ []

unfoldable pub build_headers : Option Str → Headers → Headers
unfolding update_headers
build_headers token custom = update_headers (bearer token) custom
