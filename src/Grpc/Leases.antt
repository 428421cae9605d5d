-- ===== src/Grpc/Leases.antt =====
-- src/spooled/grpc/client.py: what the errors of gRPC tell of leases and retries.
use spooled_sdk_python.Prelude.{
  upper_char, is_lower, ℕ, ◌&&◌, ◌||◌, not, Bool, true, false, Option, none, some, List, [], Str,
  codes, upper, ◌≡◌, refl, Bool-cases, inl, inr, is_some,
}
use spooled_sdk_python.Errors.{
  spooled, ok, is_lease_expired, lease_expired_code, upper_code, is_retryable, kind_is_retryable,
  conflict_error, spooled_error, authentication_error, authorization_error, not_found_error,
  validation_error, timeout_error, network_error, server_error, rate_limit_error,
  quota_exceeded_error,
}
use spooled_sdk_python.Grpc.Errors

abbrev pub reports_lost : Errors.StatusCode → Str → Bool
reports_lost Errors.failed_precondition text = Errors.is_grpc_lease_lost text
reports_lost _ text = false

abbrev is_exhausted : Errors.StatusCode → Bool
is_exhausted Errors.resource_exhausted = true
is_exhausted _ = false

-- The codes of failures that may pass by themselves.
abbrev pub may_clear : Errors.StatusCode → Bool
may_clear Errors.deadline_exceeded = true
may_clear Errors.unavailable = true
may_clear (Errors.other_status n) = true
may_clear _ = false

abbrev quota : Option Str → Bool
quota d = Errors.is_quota_message (Errors.or_text d (codes "Rate limit exceeded"))

lost-exhausted :
    (text : Str) (o : Option ℕ) → is_lease_expired (spooled (Errors.exhausted text o)) ≡ ok false
unfolding Errors.exhausted is_lease_expired lease_expired_code rate_limit_error quota_exceeded_error
    spooled_error
lost-exhausted text (some n) = refl
lost-exhausted text none = elim (Bool-cases (Errors.is_quota_message text)) [
  | inl y ↦ rw y refl
  | inr n ↦ rw n refl
]

lost-precondition :
    (d : Option Str)
    → is_lease_expired (spooled (Errors.precondition d))
      ≡ ok (Errors.is_grpc_lease_lost (Errors.or_text d []))
unfolding Errors.precondition is_lease_expired lease_expired_code upper_code conflict_error
    spooled_error upper upper_char is_lower
lost-precondition d = elim (Bool-cases (Errors.is_grpc_lease_lost (Errors.or_text d []))) [
  | inl y ↦ rw y refl
  | inr n ↦ rw n refl
]

lost-map_code :
    (int_of : Str → Option ℕ) (c : Errors.StatusCode) (d : Option Str) (ts : List (Str × Str))
    → is_lease_expired (spooled (Errors.map_code int_of c d ts))
      ≡ ok (reports_lost c (Errors.or_text d []))
unfolding Errors.map_code is_lease_expired lease_expired_code upper_code conflict_error
    spooled_error authentication_error authorization_error not_found_error validation_error
    timeout_error network_error server_error upper upper_char is_lower
lost-map_code int_of Errors.failed_precondition d ts = lost-precondition d
lost-map_code int_of Errors.resource_exhausted d ts =
    lost-exhausted (Errors.or_text d (codes "Rate limit exceeded"))
      (Errors.grpc_retry_after int_of ts)
lost-map_code int_of _ d ts = refl

retryable-exhausted :
    (text : Str) (o : Option ℕ)
    → is_retryable (Errors.exhausted text o) ≡ (is_some o || not (Errors.is_quota_message text))
unfolding Errors.exhausted is_retryable kind_is_retryable rate_limit_error quota_exceeded_error
    spooled_error
retryable-exhausted text (some n) = refl
retryable-exhausted text none = elim (Bool-cases (Errors.is_quota_message text)) [
  | inl y ↦ rw y refl
  | inr n ↦ rw n refl
]

retryable-precondition : (d : Option Str) → is_retryable (Errors.precondition d) ≡ false
unfolding Errors.precondition is_retryable kind_is_retryable conflict_error spooled_error
retryable-precondition d = elim (Bool-cases (Errors.is_grpc_lease_lost (Errors.or_text d []))) [
  | inl y ↦ rw y refl
  | inr n ↦ rw n refl
]

abbrev clears : (Str → Option ℕ) → Errors.StatusCode → Option Str → List (Str × Str) → Bool
clears int_of c d ts =
    may_clear c
    || (is_exhausted c && (is_some (Errors.grpc_retry_after int_of ts) || not (quota d)))

retryable-map_code :
    (int_of : Str → Option ℕ) (c : Errors.StatusCode) (d : Option Str) (ts : List (Str × Str))
    → is_retryable (Errors.map_code int_of c d ts) ≡ clears int_of c d ts
unfolding Errors.map_code is_retryable kind_is_retryable conflict_error spooled_error
    authentication_error authorization_error not_found_error validation_error timeout_error
    network_error server_error
retryable-map_code int_of Errors.failed_precondition d ts = retryable-precondition d
retryable-map_code int_of Errors.resource_exhausted d ts =
    retryable-exhausted (Errors.or_text d (codes "Rate limit exceeded"))
      (Errors.grpc_retry_after int_of ts)
retryable-map_code int_of _ d ts = refl

-- For an error of gRPC, the test for a lost lease never raises: it is true exactly if the call
-- failed with FAILED_PRECONDITION and one of the two texts of a lost lease.
pub is_lease_expired-map_grpc_error :
    (int_of : Str → Option ℕ) (e : Errors.RpcError)
    → is_lease_expired (spooled (Errors.map_grpc_error int_of e))
      ≡ ok (reports_lost e.code (Errors.or_text e.details []))
unfolding Errors.map_grpc_error
is_lease_expired-map_grpc_error int_of e = lost-map_code int_of e.code e.details e.trailing

-- An error of gRPC says that it is retryable exactly if the call ran out of time, the service was
-- not available, the code is none that the SDK knows, or a limit was hit that comes with a delay or
-- is no plan limit.
pub is_retryable-map_grpc_error :
    (int_of : Str → Option ℕ) (e : Errors.RpcError)
    → is_retryable (Errors.map_grpc_error int_of e) ≡ (
        may_clear e.code
        || (is_exhausted e.code
            && (is_some (Errors.grpc_retry_after int_of e.trailing)
                || not (
                    Errors.is_quota_message
                      (Errors.or_text e.details (codes "Rate limit exceeded"))))))
unfolding Errors.map_grpc_error
is_retryable-map_grpc_error int_of e = retryable-map_code int_of e.code e.details e.trailing
