-- ===== src/Errors/Examples.antt =====
-- The theorems on the errors at concrete responses, and tests.
use spooled_sdk_python.Prelude.{true, none, codes, [], ◌∷◌, ◌≡◌, refl, str_eq, if◌then◌else◌}
use spooled_sdk_python.Json.{Value, null, str, obj, field, end, get}
use spooled_sdk_python.Errors.{Kind, ok, SpooledError, Info, is_retryable, spooled_error}
use spooled_sdk_python.Errors.Response.{Headers, Readers, infinite, malformed}
use spooled_sdk_python.Errors.Create.{create_error_from_response, body_info}
use spooled_sdk_python.Errors.Laws

abbrev readers : Readers
readers = record {
  read_float = λ s. if str_eq s (codes "inf") then infinite else malformed;
  read_date = λ s. none;
}

abbrev plain_body : Value
plain_body = obj (field (codes "code") (str (codes "oops")) end)

abbrev server_failure : SpooledError
unfolding spooled_error body_info get
server_failure = spooled_error Kind.server 503 (body_info plain_body none)

create_503 : create_error_from_response readers 0 503 plain_body none [] ≡ ok server_failure
unfolding create_error_from_response server_failure
create_503 = refl

is_retryable-create_error_from_response_example : is_retryable server_failure ≡ true
unfolding is_retryable
is_retryable-create_error_from_response_example =
    Laws.is_retryable-create_error_from_response readers 0 503 plain_body none [] server_failure
      create_503

-- Milliseconds in place of seconds.
abbrev far_headers : Headers
far_headers = (codes "x-ratelimit-reset", codes "1700000000000") ∷ []

abbrev infinite_headers : Headers
infinite_headers = (codes "retry-after", codes " inf") ∷ []

abbrev null_code : Info
null_code = record { message = null; code = null; details = null; request_id = none }
