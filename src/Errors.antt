-- ===== src/Errors.antt =====
-- src/spooled/errors.py: the exception classes. A subclass of `SpooledError` is a `Kind`, which
-- holds the attributes that the subclass adds; the attributes of the base are `SpooledError`'s.
-- `code`, `message` and `details` come out of a response body, so they are any JSON value.
-- The children: `Errors.Response` builds an error from a response, `Errors.Laws` has the theorems.
pub mod Response
pub mod Create
pub mod Laws
mod Examples
use spooled_sdk_python.Prelude.{
  ℕ, ◌==◌, Bool, true, false, Option, none, some, Str, codes, upper, str_eq, ◌≡◌, ◌⊎◌, inl, inr,
  refl,
}
use spooled_sdk_python.Prelude.Int.{ℤ}
use spooled_sdk_python.Json.{Value, null, str}

-- The attributes of `RateLimitError`. `reset` is in Unix seconds.
pub record RateLimit : Type 0 where
  pub retry_after : ℕ
  pub limit : Option ℤ
  pub remaining : Option ℤ
  pub reset : Option ℤ
  pub scope : Option Str

-- The attributes of `QuotaExceededError`, as the body has them.
pub record Quota : Type 0 where
  pub resource : Value
  pub current : Value
  pub limit : Value
  pub plan : Value
  pub upgrade_to : Value

pub data Kind : Type 0 where
  base authentication authorization not_found conflict validation payload_too_large : Kind
  rate_limit : RateLimit → Kind
  quota_exceeded : Quota → Kind
  server network timeout circuit_breaker_open unsupported_operation : Kind

pub record SpooledError : Type 0 where
  pub kind : Kind
  pub message : Value
  pub status_code : ℕ
  pub code : Value
  pub details : Value
  pub request_id : Option Str

-- The exceptions that the modelled code meets: the SDK's own, Python's, and any other.
pub data Exn : Type 0 where
  spooled : SpooledError → Exn
  attribute_error overflow_error value_error runtime_error : Exn
  other : ℕ → Exn

-- What a call returns or raises.
pub data Result {ℓ} (A : Type ℓ) : Type ℓ where
  ok : A → Result A
  raised : Exn → Result A

infixl 5 ◌>>=◌
abbrev pub ◌>>=◌ {ℓ κ} : {A : Type ℓ} {B : Type κ} → Result A → (A → Result B) → Result B
ok a >>= f = f a
raised e >>= f = raised e

abbrev pub is_ok {ℓ} : {A : Type ℓ} → Result A → Bool
is_ok (ok a) = true
is_ok (raised e) = false

pub ok_of_is_ok {ℓ} : {A : Type ℓ} (r : Result A) → is_ok r ≡ true → (a : A) × (r ≡ ok a)
ok_of_is_ok (ok a) h = (a, refl)
ok_of_is_ok (raised e) h = cc

pub Result-cases {ℓ} :
    {A : Type ℓ} (r : Result A) → ((a : A) × (r ≡ ok a)) ⊎ ((e : Exn) × (r ≡ raised e))
Result-cases (ok a) = inl (a, refl)
Result-cases (raised e) = inr (e, refl)

-- The keyword arguments that the constructors share.
pub record Info : Type 0 where
  pub message : Value
  pub code : Value
  pub details : Value
  pub request_id : Option Str

-- `SpooledError.__init__`, for a subclass and a status.
unfoldable pub spooled_error : Kind → ℕ → Info → SpooledError
spooled_error k s i = record {
  kind = k;
  message = i.message;
  status_code = s;
  code = i.code;
  details = i.details;
  request_id = i.request_id;
}

-- The constructors that fix the status.
unfoldable pub authentication_error : Info → SpooledError
unfolding spooled_error
authentication_error = spooled_error authentication 401

unfoldable pub authorization_error : Info → SpooledError
unfolding spooled_error
authorization_error = spooled_error authorization 403

unfoldable pub not_found_error : Info → SpooledError
unfolding spooled_error
not_found_error = spooled_error not_found 404

unfoldable pub conflict_error : Info → SpooledError
unfolding spooled_error
conflict_error = spooled_error conflict 409

unfoldable pub payload_too_large_error : Info → SpooledError
unfolding spooled_error
payload_too_large_error = spooled_error payload_too_large 413

unfoldable pub validation_error : ℕ → Info → SpooledError
unfolding spooled_error
validation_error = spooled_error validation

unfoldable pub rate_limit_error : RateLimit → Info → SpooledError
unfolding spooled_error
rate_limit_error r = spooled_error (rate_limit r) 429

unfoldable pub quota_exceeded_error : Quota → Info → SpooledError
unfolding spooled_error
quota_exceeded_error q = spooled_error (quota_exceeded q) 429

unfoldable pub server_error : ℕ → Info → SpooledError
unfolding spooled_error
server_error = spooled_error server

-- The errors of no response: status 0 and a code of their own.
abbrev own_info : Str → Str → Info
own_info message code = record {
  message = str message;
  code = str code;
  details = null;
  request_id = none;
}

unfoldable pub network_error : Str → SpooledError
unfolding spooled_error
network_error m = spooled_error network 0 (own_info m (codes "network_error"))

unfoldable pub timeout_error : Str → SpooledError
unfolding spooled_error
timeout_error m = spooled_error timeout 0 (own_info m (codes "timeout"))

unfoldable pub circuit_breaker_open_error : Str → SpooledError
unfolding spooled_error
circuit_breaker_open_error m =
    spooled_error circuit_breaker_open 0 (own_info m (codes "circuit_breaker_open"))

unfoldable pub unsupported_operation_error : Str → SpooledError
unfolding spooled_error
unsupported_operation_error m =
    spooled_error unsupported_operation 0 (own_info m (codes "unsupported_operation"))

-- `is_retryable`, with the overriding methods of the subclasses.
unfoldable pub kind_is_retryable : Kind → ℕ → Bool
kind_is_retryable (rate_limit r) status = true
kind_is_retryable (quota_exceeded q) status = false
kind_is_retryable server status = true
kind_is_retryable network status = true
kind_is_retryable timeout status = true
kind_is_retryable circuit_breaker_open status = false
kind_is_retryable _ status = status == 408

unfoldable pub is_retryable : SpooledError → Bool
unfolding kind_is_retryable
is_retryable e = kind_is_retryable e.kind e.status_code

abbrev pub kind_retry_after : Kind → Option ℕ
kind_retry_after (rate_limit r) = some r.retry_after
kind_retry_after (quota_exceeded q) = some 0
kind_retry_after _ = none

-- `e.retry_after` if `isinstance(e, RateLimitError)`, and None otherwise.
abbrev pub rate_limit_retry_after : Exn → Option ℕ
rate_limit_retry_after (spooled e) = kind_retry_after e.kind
rate_limit_retry_after _ = none

abbrev pub is_conflict : Kind → Bool
is_conflict conflict = true
is_conflict _ = false

-- `.upper()` on a code that the server sent: only a `str` has the method.
unfoldable pub upper_code : Value → Result Str
upper_code (str s) = ok (upper s)
upper_code _ = raised attribute_error

unfoldable pub lease_expired_code : Bool → Value → Result Bool
unfolding upper_code
lease_expired_code false code = ok false
lease_expired_code true code = do c ← upper_code code; ok (str_eq c (codes "LEASE_EXPIRED"))

-- `isinstance(error, ConflictError) and error.code.upper() == "LEASE_EXPIRED"`.
unfoldable pub is_lease_expired : Exn → Result Bool
unfolding lease_expired_code
is_lease_expired (spooled e) = lease_expired_code (is_conflict e.kind) e.code
is_lease_expired _ = ok false
