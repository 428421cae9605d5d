-- ===== src/Config/Examples.antt =====
-- src/spooled/config.py on concrete configurations.
use spooled_sdk_python.Prelude.{
  true, false, none, some, [], Str, codes, ◌≡◌, refl, is_space, strip, starts_with,
}
use spooled_sdk_python.Errors.{ok}
use spooled_sdk_python.Breaker.{CircuitBreakerConfig}
use spooled_sdk_python.Retry.Examples
use spooled_sdk_python.Retry.Examples.{fixed}
use spooled_sdk_python.Config.{
  SpooledClientConfig, ResolvedConfig, Overrides, construct, resolve_config, normalize_credential,
  get_ws_url, derive_ws_url, rstrip_slash, merge_client_config, replace_from,
}
use spooled_sdk_python.Config.Merge.{keep_all, resolve-merge}

abbrev breaker_config : CircuitBreakerConfig
breaker_config = record {
  enabled = true;
  failure_threshold = 5;
  success_threshold = 3;
  timeout = 30;
}

abbrev with_key : Str → SpooledClientConfig fixed
with_key key = record {
  api_key = some key;
  access_token = none;
  refresh_token = none;
  admin_key = none;
  base_url = codes "https://a.b/";
  ws_url = none;
  grpc_address = codes "g:443";
  timeout = 120;
  connect_timeout = 40;
  retry = Examples.config;
  circuit_breaker = breaker_config;
  headers = [];
  user_agent = codes "spooled-python";
  auto_refresh_token = true;
  debug = false;
}

derived_ws : (resolve_config fixed (with_key (codes "sp_live_abc\n"))).ws_url ≡ codes "wss://a.b"
unfolding resolve_config get_ws_url derive_ws_url rstrip_slash replace_from starts_with
derived_ws = refl

resolve-merge_example :
    (c' : SpooledClientConfig fixed) × (merge_client_config fixed
        (resolve_config fixed (with_key (codes "sp_live_abc\n")))
        (keep_all fixed)
      ≡ ok c')
    × (resolve_config fixed c' ≡ resolve_config fixed (with_key (codes "sp_live_abc\n")))
unfolding construct resolve_config normalize_credential strip is_space get_ws_url derive_ws_url
    rstrip_slash replace_from starts_with
resolve-merge_example = resolve-merge fixed (with_key (codes "sp_live_abc\n")) refl refl refl

abbrev moved : Overrides fixed
moved = record (keep_all fixed) { base_url = some (codes "http://c") }

abbrev current : ResolvedConfig fixed
current = resolve_config fixed (with_key (codes "sp_live_abc"))
