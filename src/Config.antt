-- ===== src/Config.antt =====
-- src/spooled/config.py: the configuration of a client. `SpooledClientConfig` is what a user gives,
-- `ResolvedConfig` what the client works with. Pydantic raises a ValidationError, which is a
-- ValueError, for a field outside its declared bounds; `construct` is that check. Numbers are those
-- of `Retry.Floats`. The debug function is whether there is one.
pub mod Merge
mod Examples
use spooled_sdk_python.Prelude.{
  ℕ, zero, suc, ◌-◌, ◌==◌, ◌&&◌, ◌||◌, not, leb, Bool, true, false, Option, none, some, List, [],
  ◌∷◌, ◌++◌, Str, codes, str_eq, is_true, is_set, starts_with, strip, length, or_else,
  if◌then◌else◌,
}
use spooled_sdk_python.Errors.{Result, ok, raised, value_error}
use spooled_sdk_python.Errors.Response.{Headers}
use spooled_sdk_python.Retry.{Floats, RetryConfig}
use spooled_sdk_python.Breaker.{CircuitBreakerConfig}

-- `s.replace(old, new)`, for an `old` that is not empty; the number is how much of a match is left
-- to skip.
unfoldable pub replace_from : ℕ → Str → Str → Str → Str
replace_from n old new [] = []
replace_from (suc n) old new (c ∷ s) = replace_from n old new s
replace_from zero old new (c ∷ s) =
    let matched = new ++ replace_from (length old - 1) old new s in
    let kept = c ∷ replace_from zero old new s in if starts_with old (c ∷ s) then matched else kept

abbrev pub replace : Str → Str → Str → Str
replace old new s = replace_from zero old new s

-- `s.rstrip("/")`.
abbrev cons_unless_slash : ℕ → Str → Str
cons_unless_slash c [] = if c == b'/' then [] else c ∷ []
cons_unless_slash c (d ∷ s) = c ∷ d ∷ s

unfoldable pub rstrip_slash : Str → Str
rstrip_slash [] = []
rstrip_slash (c ∷ s) = cons_unless_slash c (rstrip_slash s)

module _ (fl : Floats) where
  pub record SpooledClientConfig : Type 0 where
    pub api_key : Option Str
    pub access_token : Option Str
    pub refresh_token : Option Str
    pub admin_key : Option Str
    pub base_url : Str
    pub ws_url : Option Str
    pub grpc_address : Str
    pub timeout : fl.F
    pub connect_timeout : fl.F
    pub retry : RetryConfig fl
    pub circuit_breaker : CircuitBreakerConfig
    pub headers : Headers
    pub user_agent : Str
    pub auto_refresh_token : Bool
    pub debug : Bool

  pub record ResolvedConfig : Type 0 where
    pub api_key : Option Str
    pub access_token : Option Str
    pub refresh_token : Option Str
    pub admin_key : Option Str
    pub base_url : Str
    pub ws_url : Str
    pub grpc_address : Str
    pub timeout : fl.F
    pub connect_timeout : fl.F
    pub retry : RetryConfig fl
    pub circuit_breaker : CircuitBreakerConfig
    pub headers : Headers
    pub user_agent : Str
    pub auto_refresh_token : Bool
    pub debug_fn : Bool

  -- The bounds that the fields declare: `min_length=10` and `gt=0`.
  abbrev pub is_long : Option Str → Bool
  is_long none = true
  is_long (some s) = leb 10 (length s)

  abbrev pub is_positive : fl.F → Bool
  is_positive x = not (fl.leb x fl.zero_float)

  unfoldable pub construct : SpooledClientConfig → Result SpooledClientConfig
  construct c =
      if is_long c.api_key && is_positive c.timeout && is_positive c.connect_timeout
      then ok c
      else raised value_error

  -- The last three lines of `get_ws_url`.
  unfoldable pub derive_ws_url : Str → Str
  derive_ws_url base =
      if starts_with (codes "https://") base
      then replace (codes "https://") (codes "wss://") base
      else replace (codes "http://") (codes "ws://") base

  unfoldable pub get_ws_url : Option Str → Str → Str
  get_ws_url none base = derive_ws_url base
  get_ws_url (some []) base = derive_ws_url base
  get_ws_url (some (c ∷ s)) base = c ∷ s

  abbrev pub or_unset : Str → Option Str
  or_unset [] = none
  or_unset (c ∷ s) = some (c ∷ s)

  -- `_normalize_credential`.
  unfoldable pub normalize_credential : Option Str → Option Str
  normalize_credential none = none
  normalize_credential (some s) = or_unset (strip s)

  unfoldable pub resolve_config : SpooledClientConfig → ResolvedConfig
  resolve_config c = record {
    api_key = normalize_credential c.api_key;
    access_token = normalize_credential c.access_token;
    refresh_token = normalize_credential c.refresh_token;
    admin_key = normalize_credential c.admin_key;
    base_url = rstrip_slash c.base_url;
    ws_url = rstrip_slash (get_ws_url c.ws_url c.base_url);
    grpc_address = c.grpc_address;
    timeout = c.timeout;
    connect_timeout = c.connect_timeout;
    retry = c.retry;
    circuit_breaker = c.circuit_breaker;
    headers = c.headers;
    user_agent = c.user_agent;
    auto_refresh_token = c.auto_refresh_token;
    debug_fn = c.debug;
  }

  unfoldable pub validate_config : ResolvedConfig → Result (Unit {0})
  validate_config c =
      if not (is_set c.api_key) && not (is_set c.access_token) && not (is_set c.admin_key)
      then raised value_error
      else ok tt

  -- The fields that `with_options` overrides; a field that is none is kept.
  pub record Overrides : Type 0 where
    pub api_key : Option Str
    pub access_token : Option Str
    pub refresh_token : Option Str
    pub admin_key : Option Str
    pub base_url : Option Str
    pub ws_url : Option Str
    pub grpc_address : Option Str
    pub timeout : Option fl.F
    pub connect_timeout : Option fl.F
    pub retry : Option (RetryConfig fl)
    pub circuit_breaker : Option CircuitBreakerConfig
    pub headers : Option Headers
    pub user_agent : Option Str
    pub auto_refresh_token : Option Bool
    pub debug : Option Bool

  abbrev pub override {ℓ} : {A : Type ℓ} → A → Option A → A
  override old none = old
  override old (some new) = new

  -- The `ws_url` that is carried over: none where it was only derived from the base URL.
  unfoldable pub kept_ws_url : ResolvedConfig → Option Str
  kept_ws_url current =
      if str_eq current.ws_url (rstrip_slash (get_ws_url none current.base_url))
      then none
      else some current.ws_url

  unfoldable pub merged : ResolvedConfig → Overrides → SpooledClientConfig
  merged current o = record {
    api_key = or_else o.api_key current.api_key;
    access_token = or_else o.access_token current.access_token;
    refresh_token = or_else o.refresh_token current.refresh_token;
    admin_key = or_else o.admin_key current.admin_key;
    base_url = override current.base_url o.base_url;
    ws_url = or_else o.ws_url (kept_ws_url current);
    grpc_address = override current.grpc_address o.grpc_address;
    timeout = override current.timeout o.timeout;
    connect_timeout = override current.connect_timeout o.connect_timeout;
    retry = override current.retry o.retry;
    circuit_breaker = override current.circuit_breaker o.circuit_breaker;
    headers = override current.headers o.headers;
    user_agent = override current.user_agent o.user_agent;
    auto_refresh_token = override current.auto_refresh_token o.auto_refresh_token;
    debug = override current.debug_fn o.debug;
  }

  unfoldable pub merge_client_config : ResolvedConfig → Overrides → Result SpooledClientConfig
  unfolding merged construct
  merge_client_config current o = construct (merged current o)
