-- ===== src/Http/Examples.antt =====
-- src/spooled/utils/http.py: requests to a server whose answers are given.
use spooled_sdk_python.Prelude.{
  ℕ, suc, ◌+◌, ◌*◌, ◌≤◌, Bool, true, false, Option, none, some, List, [], ◌∷◌, Str, codes, ◌≡◌, ◌⊎◌,
  refl, sym, ap, arith, if◌then◌else◌, upper, contains,
}
use spooled_sdk_python.Json.{Value, obj, field, end, str}
use spooled_sdk_python.Json
use spooled_sdk_python.Errors.{ok, raised, attribute_error, is_retryable, timeout_error}
use spooled_sdk_python.Errors.Response.{malformed, header_get}
use spooled_sdk_python.Effects.{M, Part}
use spooled_sdk_python.Breaker.{
  CircuitBreaker, CircuitBreakerConfig, create_circuit_breaker, execute, is_allowed,
}
use spooled_sdk_python.Retry.{Env}
use spooled_sdk_python.Retry.Examples.{fixed, config}
use spooled_sdk_python.Http.{
  Request, HttpResponse, Answer, response, timeout_exception, Client, is_idempotent,
}
use spooled_sdk_python.Http.Pipeline.{
  Net, send, store_rate_limit, wants_refresh, try_refresh_token, try_refresh_with, refresh_once,
  finish, request, guarded, execute_request, execute_replay,
}
use spooled_sdk_python.Http.Sends.{request_cost}
use spooled_sdk_python.Http.Flights.{refresh_all, refresh_single_flight}
use spooled_sdk_python.Http.Async.{request_async}
use spooled_sdk_python.Http.Async.Same.{request_async-request}
use spooled_sdk_python.Http.Outcomes.{Answers, Refreshes, request_unsafe_once, execute_request_ok}

abbrev breaker_config : CircuitBreakerConfig
breaker_config = record {
  enabled = true;
  failure_threshold = 5;
  success_threshold = 3;
  timeout = 30;
}

record Site : Type 0 where
  client : Client
  breaker : CircuitBreaker
  calls : ℕ
  answers : List Answer

abbrev client_part : Part Site Client
client_part = record {
  get = λ s. s.client;
  set = λ c s. record s { client = c };
  get-set = λ c s. refl;
  set-set = λ c d s. refl;
  set-get = λ s. refl;
}

abbrev breaker_part : Part Site CircuitBreaker
breaker_part = record {
  get = λ s. s.breaker;
  set = λ c s. record s { breaker = c };
  get-set = λ c s. refl;
  set-set = λ c d s. refl;
  set-get = λ s. refl;
}

-- The next answer; with none left, the call times out.
abbrev next : List Answer → Answer
next [] = timeout_exception
next (a ∷ rest) = a

abbrev later : List Answer → List Answer
later [] = []
later (a ∷ rest) = rest

abbrev net : Net Site
net = record {
  cl = client_part;
  transport =
      λ k s. (ok (next s.answers), record s { calls = s.calls + 1; answers = later s.answers });
  readers = record { read_float = λ s. malformed; read_date = λ s. none };
  seconds = λ s. 100;
  timeout_text = λ t. codes "Request timed out";
  refresh_token_fn =
      some
        (λ s. (ok tt, record s { client = record s.client { auth_token = some (codes "new") } }));
}

abbrev env : Env fixed Site
env = record { uniform = λ r s. (0, s); sleep = λ d s. s }

abbrev answer : ℕ → Bool → Answer
answer status good = response (record {
  status_code = status;
  is_success = good;
  headers = [];
  json = raised attribute_error;
  text = codes "text";
})

abbrev site : List Answer → Bool → Site
site answers active = record {
  client = record { auth_token = some (codes "old"); rate_limit = none; active = active };
  breaker = create_circuit_breaker breaker_config;
  calls = 0;
  answers = answers;
}

abbrev post : Request
post = record {
  method = codes "POST";
  url = codes "https://api/jobs";
  body = obj (field (codes "queue_name") (str (codes "mail")) end);
  raw_body = none;
  headers = [];
  timeout = none;
  skip_request_conversion = false;
  skip_response_conversion = false;
  with_headers = false;
}

abbrev show : ℕ → Str
show n = codes "30"

abbrev calls_after : Site → Option (M Site (Unit {0})) → ℕ
calls_after s none = 0
calls_after s (some fn) = (fn s).1.calls

request_cost_example :
    (request net fixed env breaker_part
      (λ s. 0)
      show
      config
      false
      (some true)
      post
      (site (answer 401 false ∷ answer 500 false ∷ answer 200 true ∷ []) false)).1.calls
    ≤ 0 + (if false then 2 else suc config.max_retries * 2)
request_cost_example =
    request_cost net (λ s. s.calls) (λ k s. omega arith) (λ c s. omega arith) refresh_free fixed env
      breaker_part (λ s. 0) show (λ b s. omega arith) (λ d s. omega arith) (λ d s. omega arith)
      config false (some true) post
      (site (answer 401 false ∷ answer 500 false ∷ answer 200 true ∷ []) false)
  where
    refresh_free :
        (fn : M Site (Unit {0})) (s : Site)
        → net.refresh_token_fn ≡ some fn
        → (fn s).1.calls ≤ s.calls
    refresh_free fn s e =
        let f : (fn s).1.calls ≡ s.calls = sym (ap (calls_after s) e) in omega (arith, f)

request_unsafe_once_example :
    request net fixed env breaker_part (λ s. 0) show config false none post (site [] false)
    ≡ guarded net fixed env breaker_part (λ s. 0) show post (site [] false)
unfolding upper Json.get execute is_allowed create_circuit_breaker execute_request send is_retryable
    timeout_error
request_unsafe_once_example =
    let unsafe : is_idempotent post.method post.body post.headers ≡ false =
      (unfold is_idempotent in refl) in
    request_unsafe_once net fixed env breaker_part (λ s. 0) show config post (site [] false) unsafe
      (unfold guarded in refl)

request_async-request_example :
    request_async net fixed env breaker_part (λ s. 0) show config false none post
    ≡ request net fixed env breaker_part (λ s. 0) show config false none post
request_async-request_example =
    request_async-request net fixed env breaker_part (λ s. 0) show config false none post

abbrev expired : Site
expired = site (answer 401 false ∷ answer 200 true ∷ []) false

execute_request_ok_example :
    (u : Site) × (r : HttpResponse) × Answers net post u r (execute_request net post expired)
    × ((u ≡ expired) ⊎ Refreshes net post expired u)
unfolding store_rate_limit wants_refresh try_refresh_token finish contains header_get
execute_request_ok_example =
    execute_request_ok net post expired (unfold execute_request execute_replay send in refl)

-- Two threads have read the old token; the second one gets the lock when it is replaced.
abbrev old_token : Option Str
old_token = some (codes "old")

refresh_single_flight_example :
    refresh_all net (old_token ∷ old_token ∷ []) (site [] false)
    ≡ (ok true ∷ ok true ∷ [], (try_refresh_token net old_token (site [] false)).1)
unfolding try_refresh_token try_refresh_with refresh_once
refresh_single_flight_example =
    refresh_single_flight net old_token (old_token ∷ []) (site [] false) _ refl refl (refl, tt)
