-- ===== src/Http/Pipeline.antt =====
-- src/spooled/utils/http.py: `_try_refresh_token`, `_execute_request` and `request`.
use spooled_sdk_python.Prelude.{
  ℕ, ◌==◌, ◌&&◌, not, Bool, true, false, Option, none, some, Str, codes, str_eq, ◌++◌, is_some,
  contains, if◌then◌else◌,
}
use spooled_sdk_python.Json.{Value, null}
use spooled_sdk_python.Errors.{spooled, Result, ok, raised, network_error, timeout_error}
use spooled_sdk_python.Errors.Response.{Readers, header_get}
use spooled_sdk_python.Errors.Create.{create_error_from_response}
use spooled_sdk_python.Effects.{M, Part, pure, raise, lift, gets, modify, catch, ◌>>=◌, ◌>>◌}
use spooled_sdk_python.Casing.{convert_request, convert_response}
use spooled_sdk_python.Breaker.{CircuitBreaker, execute}
use spooled_sdk_python.Retry.{Floats, RetryConfig, Env, with_retry}
use spooled_sdk_python.Http.{
  Request, Call, HttpResponse, Answer, response, timeout_exception, request_error, Payload,
  no_content, Reply, plain, headed, Client, RateLimitInfo, from_headers, build_headers,
  is_idempotent,
}
use spooled_sdk_python.Http

abbrev is_null : Value → Bool
is_null null = true
is_null _ = false

abbrev pub same_token : Option Str → Option Str → Bool
same_token none none = true
same_token (some a) (some b) = str_eq a b
same_token _ _ = false

-- The body as it is sent.
unfoldable pub json_body : Request → Option Value
json_body q =
    let converted = some (if q.skip_request_conversion then q.body else convert_request q.body) in
    if is_some q.raw_body then none else if is_null q.body then none else converted

unfoldable pub call_for : Option Str → Request → Call
unfolding json_body
call_for token q = record {
  method = q.method;
  url = q.url;
  headers = build_headers token q.headers;
  json = json_body q;
  content = q.raw_body;
  timeout = q.timeout;
}

-- A NetworkError's message, and that of a TimeoutError for the timeout in its text.
abbrev pub or_null : Result Value → Value
or_null (ok v) = v
or_null (raised e) = null

abbrev pub or_empty : Option Str → Str
or_empty none = codes ""
or_empty (some s) = s

abbrev pub new_rate_limit : Option RateLimitInfo → Option RateLimitInfo → Option RateLimitInfo
new_rate_limit none old = old
new_rate_limit (some i) old = some i

abbrev with_reply : Request → HttpResponse → Payload → Reply
with_reply q r d = if q.with_headers then headed d r.headers else plain d

-- What a client works with: its attributes as a part of the state, httpx, Python's readers, the
-- clock in whole seconds, the text of a timeout, and `_refresh_token_fn`, which client.py sets.
pub record Net (S : Type 0) : Type 0 where
  pub cl : Part S Client
  pub transport : Call → M S Answer
  pub readers : Readers
  pub seconds : S → ℕ
  pub timeout_text : Option ℕ → Str
  pub refresh_token_fn : Option (M S (Unit {0}))

module _ {S : Type 0} (net : Net S) where
  open net use {cl, transport, readers, seconds, timeout_text, refresh_token_fn}

  abbrev pub token : M S (Option Str)
  token = gets (λ s. (cl.get s).auth_token)

  abbrev pub set_active : Bool → M S (Unit {0})
  set_active b = modify (λ s. cl.set (record (cl.get s) { active = b }) s)

  -- The locked part of `_try_refresh_token`.
  unfoldable pub refresh_once : M S (Unit {0}) → M S Bool
  refresh_once fn = do
    set_active true
    done ← catch (fn >> pure true) (λ e. pure false)
    set_active false
    pure done

  -- `_try_refresh_token`.
  unfoldable pub try_refresh_with : Option (M S (Unit {0})) → Option Str → M S Bool
  unfolding refresh_once
  try_refresh_with none before = pure false
  try_refresh_with (some fn) before = do
    now ← token
    if same_token now before then refresh_once fn else pure true

  unfoldable pub try_refresh_token : Option Str → M S Bool
  unfolding try_refresh_with
  try_refresh_token = try_refresh_with refresh_token_fn

  abbrev pub received : Option ℕ → Answer → M S HttpResponse
  received timeout (response r) = pure r
  received timeout timeout_exception = raise (spooled (timeout_error (timeout_text timeout)))
  received timeout (request_error m) =
      raise (spooled (network_error (codes "Network request failed: " ++ m)))

  -- `self.rate_limit` becomes what the response reports, if it reports anything.
  unfoldable pub store_rate_limit : HttpResponse → M S (Unit {0})
  store_rate_limit r = modify (λ s.
      let c = cl.get s in
      cl.set (record c { rate_limit = new_rate_limit (from_headers r.headers) c.rate_limit }) s)

  -- The first half of `_execute_request`: the call, and the limits that its response reports.
  unfoldable pub send : Request → M S HttpResponse
  send q = do
    t ← token
    a ← transport (call_for t q)
    r ← received q.timeout a
    store_rate_limit r
    pure r

  -- The exception for a response that is no success.
  unfoldable pub fail_with : HttpResponse → M S Reply
  fail_with r s =
      let e =
        (create_error_from_response readers (seconds s) r.status_code (or_null r.json)
          (header_get r.headers (codes "X-Request-Id")) r.headers) in
      elim e [ ok x ↦ raise (spooled x) s | raised x ↦ raise x s ]

  -- The body of a success.
  unfoldable pub parse_body : Request → HttpResponse → M S Reply
  parse_body q r =
      let from_json : M S Reply = (do
        v ← lift r.json
        pure (
            with_reply q r
              (Http.json (if q.skip_response_conversion then v else convert_response v)))) in
      if r.status_code == 204
      then pure (with_reply q r no_content)
      else if contains (codes "application/json")
          (or_empty (header_get r.headers (codes "Content-Type")))
      then from_json
      else pure (with_reply q r (Http.text r.text))

  unfoldable pub finish : Request → HttpResponse → M S Reply
  unfolding fail_with parse_body
  finish q r = if r.is_success then parse_body q r else fail_with r

  -- Whether a response may be met by a refresh.
  unfoldable pub wants_refresh : HttpResponse → Client → Bool
  wants_refresh r c =
      not r.is_success && r.status_code == 401 && is_some refresh_token_fn && not c.active

  -- `_execute_request` with `_allow_refresh=False`.
  unfoldable pub execute_replay : Request → M S Reply
  execute_replay q = do r ← send q; finish q r

  -- `_execute_request`.
  unfoldable pub execute_request : Request → M S Reply
  execute_request q = do
    before ← token
    r ← send q
    c ← gets cl.get
    let refreshed : M S Reply = (do
      usable ← try_refresh_token before
      let replay = execute_replay q
      if usable then replay else finish q r)
    if wants_refresh r c then refreshed else finish q r

  module _ (fl : Floats) (env : Env fl S) (cb : Part S CircuitBreaker) (now : S → ℕ)
      (show : ℕ → Str) where
    -- `execute` in `request`.
    unfoldable pub guarded : Request → M S Reply
    guarded q = execute cb now show (execute_request q)

    -- `request`, for a URL that `build_url` made; `idempotent` overrides the guess.
    unfoldable pub request : RetryConfig fl → Bool → Option Bool → Request → M S Reply
    unfolding guarded
    request config skip_retry idempotent q =
        let safe : Bool = elim idempotent [
          | none ↦ is_idempotent q.method q.body q.headers
          | some b ↦ b
        ] in
        if skip_retry
        then guarded q
        else with_retry fl env (guarded q) config (some (λ attempt e delay. pure tt)) safe
