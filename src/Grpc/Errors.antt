-- ===== src/Grpc/Errors.antt =====
-- src/spooled/grpc/client.py: `_map_grpc_error` and `_call_unary`. `int_of` is Python's `int()` of a
-- text, for the delays that are no negative number.
use spooled_sdk_python.Prelude.{
  ℕ, ◌==◌, ◌&&◌, ◌||◌, not, Bool, false, Option, none, some, List, [], ◌∷◌, Str, codes, str_eq,
  lower, strip, starts_with, contains, is_upper, is_lower, is_digit, if◌then◌else◌,
}
use spooled_sdk_python.Json.{null, str}
use spooled_sdk_python.Errors.{
  SpooledError, Info, Exn, spooled, Result, ok, raised, timeout_error, authentication_error,
  authorization_error, not_found_error, validation_error, conflict_error, quota_exceeded_error,
  rate_limit_error, network_error, server_error, Quota,
}

-- `grpc.StatusCode`; an exception without a code is among the others.
pub data StatusCode : Type 0 where
  deadline_exceeded unauthenticated permission_denied not_found invalid_argument : StatusCode
  failed_precondition aborted already_exists resource_exhausted unavailable : StatusCode
  other_status : ℕ → StatusCode

-- A `grpc.RpcError`. An exception without trailing metadata has none.
pub record RpcError : Type 0 where
  pub code : StatusCode
  pub details : Option Str
  pub trailing : List (Str × Str)

-- `\w`, for ASCII.
abbrev pub is_word : ℕ → Bool
is_word c = is_upper c || is_lower c || is_digit c || c == b'_'

abbrev starts_word : Str → Bool
starts_word [] = false
starts_word (c ∷ s) = is_word c

abbrev skip_as : Str → Str → Str
skip_as [] s = s
skip_as (p ∷ ps) [] = []
skip_as (p ∷ ps) (c ∷ s) = skip_as ps s

-- `\blimit reached\b`, in any case, after a character that is part of a word or not.
unfoldable pub limit_reached_after : Bool → Str → Bool
limit_reached_after w [] = false
limit_reached_after w (c ∷ s) =
    let phrase = codes "limit reached" in
    (not w && starts_with phrase (lower (c ∷ s)) && not (starts_word (skip_as phrase (c ∷ s))))
    || limit_reached_after (is_word c) s

-- `_GRPC_QUOTA_MESSAGE.search(message)`.
unfoldable pub is_quota_message : Str → Bool
unfolding limit_reached_after
is_quota_message = limit_reached_after false

unfoldable pub grpc_retry_after : (Str → Option ℕ) → List (Str × Str) → Option ℕ
grpc_retry_after int_of [] = none
grpc_retry_after int_of ((key, value) ∷ rest) =
    let later = grpc_retry_after int_of rest in
    if str_eq (lower key) (codes "retry-after") then int_of value else later

-- `_is_grpc_lease_lost`.
unfoldable pub is_grpc_lease_lost : Str → Bool
is_grpc_lease_lost message =
    let text = lower (strip message) in
    str_eq text (codes "lease expired")
    || contains (codes "does not match the job's current lease") text

-- `details or default`.
abbrev pub or_text : Option Str → Str → Str
or_text none d = d
or_text (some []) d = d
or_text (some (c ∷ s)) d = c ∷ s

-- The arguments of a constructor that is given a message, and its default code.
abbrev pub info : Str → Str → Info
info message code = record {
  message = str message;
  code = str code;
  details = null;
  request_id = none;
}

abbrev no_quota : Quota
no_quota = record { resource = null; current = null; limit = null; plan = null; upgrade_to = null }

-- `RateLimitError(message, retry_after=seconds)`.
abbrev limited : Str → ℕ → SpooledError
limited message seconds =
    rate_limit_error
      (record { retry_after = seconds; limit = none; remaining = none; reset = none; scope = none })
      (info message (codes "rate_limit_exceeded"))

-- The branch of RESOURCE_EXHAUSTED.
unfoldable pub exhausted : Str → Option ℕ → SpooledError
unfolding is_quota_message
exhausted message (some seconds) = limited message seconds
exhausted message none =
    if is_quota_message message
    then quota_exceeded_error no_quota (info message (codes "QUOTA_EXCEEDED"))
    else limited message 60

abbrev conflict_of : Option Str → SpooledError
conflict_of d = conflict_error (info (or_text d (codes "Operation conflict")) (codes "conflict"))

unfoldable pub precondition : Option Str → SpooledError
unfolding is_grpc_lease_lost
precondition d =
    if is_grpc_lease_lost (or_text d [])
    then conflict_error (info (or_text d (codes "Lease expired")) (codes "LEASE_EXPIRED"))
    else conflict_of d

-- `_map_grpc_error`, on the code of the exception.
unfoldable pub map_code :
    (Str → Option ℕ) → StatusCode → Option Str → List (Str × Str) → SpooledError
unfolding exhausted precondition grpc_retry_after
map_code int_of deadline_exceeded d ts = timeout_error (or_text d (codes "gRPC request timed out"))
map_code int_of unauthenticated d ts =
    authentication_error
      (info (or_text d (codes "Authentication failed")) (codes "authentication_error"))
map_code int_of permission_denied d ts =
    authorization_error (info (or_text d (codes "Access denied")) (codes "authorization_error"))
map_code int_of not_found d ts =
    not_found_error (info (or_text d (codes "Resource not found")) (codes "not_found"))
map_code int_of invalid_argument d ts =
    validation_error 400 (info (or_text d (codes "Validation failed")) (codes "validation_error"))
map_code int_of failed_precondition d ts = precondition d
map_code int_of aborted d ts = conflict_of d
map_code int_of already_exists d ts = conflict_of d
map_code int_of resource_exhausted d ts =
    exhausted (or_text d (codes "Rate limit exceeded")) (grpc_retry_after int_of ts)
map_code int_of unavailable d ts = network_error (or_text d (codes "gRPC service unavailable"))
map_code int_of (other_status n) d ts =
    server_error 500 (info (or_text d (codes "gRPC request failed")) (codes "server_error"))

unfoldable pub map_grpc_error : (Str → Option ℕ) → RpcError → SpooledError
unfolding map_code
map_grpc_error int_of e = map_code int_of e.code e.details e.trailing

-- What a stub does.
pub data Outcome {ℓ} (A : Type ℓ) : Type ℓ where
  returned : A → Outcome A
  rpc_error : RpcError → Outcome A
  raises : Exn → Outcome A

unfoldable pub call_unary {ℓ} : {A : Type ℓ} → (Str → Option ℕ) → Outcome A → Result A
unfolding map_grpc_error
call_unary int_of (returned a) = ok a
call_unary int_of (rpc_error e) = raised (spooled (map_grpc_error int_of e))
call_unary int_of (raises e) = raised e
