-- ===== src/Config/Merge.antt =====
-- src/spooled/config.py: `merge_client_config` against `resolve_config`.
use spooled_sdk_python.Prelude.{
  ℕ, ◌==◌, true, false, Option, none, some, [], ◌∷◌, Str, str_eq, str_eq_refl, eq_of_str_eq,
  is_true, strip, strip-strip, ◌≡◌, refl, sym, ap, arith, Bool-cases, inl, inr, if◌then◌else◌,
}
use spooled_sdk_python.Errors.{ok, raised, value_error}
use spooled_sdk_python.Retry.{Floats}
use spooled_sdk_python.Config.{
  SpooledClientConfig, ResolvedConfig, Overrides, rstrip_slash, cons_unless_slash, get_ws_url,
  or_unset, normalize_credential, resolve_config, kept_ws_url, merged, merge_client_config,
  construct, is_long, derive_ws_url,
}

rstrip_slash_cons :
    (c : ℕ) (t : Str)
    → rstrip_slash t ≡ t
    → rstrip_slash (cons_unless_slash c t) ≡ cons_unless_slash c t
unfolding rstrip_slash
rstrip_slash_cons c [] h = elim (Bool-cases (c == b'/')) [
  | inl slash ↦ rw slash
  | inr other ↦ rw (other, other)
]
rstrip_slash_cons c (d ∷ t) h = ap (cons_unless_slash c) h

rstrip_slash-rstrip_slash : (s : Str) → rstrip_slash (rstrip_slash s) ≡ rstrip_slash s
unfolding rstrip_slash
rstrip_slash-rstrip_slash [] = refl
rstrip_slash-rstrip_slash (c ∷ s) =
    rstrip_slash_cons c (rstrip_slash s) (rstrip_slash-rstrip_slash s)

module _ (fl : Floats) where
  -- No field is overridden.
  abbrev pub keep_all : Overrides fl
  keep_all = record {
    api_key = none;
    access_token = none;
    refresh_token = none;
    admin_key = none;
    base_url = none;
    ws_url = none;
    grpc_address = none;
    timeout = none;
    connect_timeout = none;
    retry = none;
    circuit_breaker = none;
    headers = none;
    user_agent = none;
    auto_refresh_token = none;
    debug = none;
  }

  normalize_unset :
      (s : Str) → strip s ≡ s → normalize_credential fl (or_unset fl s) ≡ or_unset fl s
  unfolding normalize_credential
  normalize_unset [] h = refl
  normalize_unset (c ∷ s) h = rw h

  normalize-normalize :
      (o : Option Str)
      → normalize_credential fl (normalize_credential fl o) ≡ normalize_credential fl o
  unfolding normalize_credential
  normalize-normalize none = refl
  normalize-normalize (some s) = normalize_unset (strip s) (strip-strip s)

  resolve_ws_url :
      (ws base : Str)
      → rstrip_slash ws ≡ ws
      → is_true ws ≡ true
      → rstrip_slash (
          get_ws_url fl
            (if str_eq ws (rstrip_slash (get_ws_url fl none base)) then none else some ws)
            base)
        ≡ ws
  resolve_ws_url [] base h t = cc
  resolve_ws_url (c ∷ ws) base h t =
      elim (Bool-cases (str_eq (c ∷ ws) (rstrip_slash (get_ws_url fl none base)))) [
        | inl same ↦ rw same (sym (eq_of_str_eq _ _ same))
        | inr other ↦ rw other (unfold get_ws_url in h)
      ]

  -- `with_options()` without an override gives a client that works with the same configuration:
  -- merging what a configuration was resolved to and resolving the result gives it back, if the
  -- API key is long enough also without the spaces around it, and the resolved WebSocket URL is
  -- not empty.
  pub resolve-merge :
      (c : SpooledClientConfig fl)
      → construct fl c ≡ ok c
      → is_long fl (normalize_credential fl c.api_key) ≡ true
      → is_true (resolve_config fl c).ws_url ≡ true
      → (c' : SpooledClientConfig fl) × (merge_client_config fl (resolve_config fl c) keep_all
          ≡ ok c')
        × (resolve_config fl c' ≡ resolve_config fl c)
  unfolding merge_client_config merged resolve_config kept_ws_url construct
  resolve-merge c v l t =
      let r = resolve_config fl c in
      (
        merged fl r keep_all,
        ground (arith, v, l),
        rw
            (
              normalize-normalize c.api_key,
              normalize-normalize c.access_token,
              normalize-normalize c.refresh_token,
              normalize-normalize c.admin_key,
              rstrip_slash-rstrip_slash c.base_url,
              resolve_ws_url r.ws_url r.base_url (rstrip_slash-rstrip_slash _) t,
            )
            refl,
      )

  -- An API key that is long enough only with the spaces around it is accepted by the constructor,
  -- and every `with_options()` of that client which does not set another key raises.
  pub merge_short_key :
      (c : SpooledClientConfig fl) (o : Overrides fl)
      → construct fl c ≡ ok c
      → is_long fl (normalize_credential fl c.api_key) ≡ false
      → o.api_key ≡ none
      → merge_client_config fl (resolve_config fl c) o ≡ raised value_error
  unfolding merge_client_config merged resolve_config construct
  merge_short_key c o v l k = ground (arith, l)

  -- A client whose WebSocket URL was derived from its base URL, and that gets another base URL and
  -- no WebSocket URL, derives it again from the new one.
  pub merge_base_url :
      (r : ResolvedConfig fl) (o : Overrides fl) (base : Str) (c : SpooledClientConfig fl)
      → r.ws_url ≡ rstrip_slash (get_ws_url fl none r.base_url)
      → o.base_url ≡ some base
      → o.ws_url ≡ none
      → merge_client_config fl r o ≡ ok c
      → ((resolve_config fl c).base_url ≡ rstrip_slash base)
        × ((resolve_config fl c).ws_url ≡ rstrip_slash (derive_ws_url fl base))
  unfolding merge_client_config merged resolve_config construct kept_ws_url get_ws_url
  merge_base_url r o base c d b w m =
      let derived = rstrip_slash (derive_ws_url fl r.base_url) in
      let same : str_eq r.ws_url derived ≡ true = rw d (str_eq_refl derived) in
      ground (arith, m, b, w, same)
