-- ===== src/Token/Cache.antt =====
-- src/spooled/client.py: the cache of `get_jwt_token` for a client with an API key.
use spooled_sdk_python.Prelude.{
  ℕ, ◌+◌, ◌<◌, ◌&&◌, not, Bool, true, false, Option, none, some, List, [], ◌∷◌, Str, is_set,
  is_some, ◌≡◌, ◌⊎◌, inl, inr, refl, sym, ◌∙◌, ap, arith, Bool-cases,
}
use spooled_sdk_python.Errors.{Result, ok, Result-cases}
use spooled_sdk_python.Http.Pipeline.{Net}
use spooled_sdk_python.Token.{
  Decoder, Session, Moment, decode_jwt_exp, jwt_needs_refresh, is_usable, log_in, get_jwt_token,
  text_of, run,
}

module _ (k : Decoder) (leeway : ℕ) (other : Net Session) where
  -- A client with an API key and no access token.
  abbrev pub HasKeyOnly : Session → Type 0
  HasKeyOnly s = (is_set s.access_token ≡ false) × (is_set s.api_key ≡ true)

  log_in_keeps :
      (m : Moment) (key : Str) (s : Session)
      → let d = (log_in k leeway m key s).1 in
        (d.access_token ≡ s.access_token) × (d.api_key ≡ s.api_key) × (d.http ≡ s.http)
  unfolding log_in
  log_in_keeps m key s = elim (Result-cases (m.login key)) [
    | inr (e, q) ↦ rw (log_in, q) (refl, refl, refl)
    | inl (t, q) ↦ elim (Result-cases (decode_jwt_exp k t)) [
      | inr (e, r) ↦ rw (log_in, q, r) (refl, refl, refl)
      | inl (e, r) ↦ rw (log_in, q, r) (refl, refl, refl)
    ]
  ]

  get_jwt_token_keeps :
      (m : Moment) (f : Bool) (s : Session)
      → HasKeyOnly s
      → let d = (get_jwt_token k leeway other m f s).1 in
        (d.access_token ≡ s.access_token) × (d.api_key ≡ s.api_key) × (d.http ≡ s.http)
  unfolding get_jwt_token
  get_jwt_token_keeps m f s (a, b) = elim (Bool-cases (is_usable k leeway m f s)) [
    | inl y ↦ simp (a, b, y) (refl, refl, refl)
    | inr n ↦ simp (a, b, n) (log_in_keeps m (text_of k leeway s.api_key) s)
  ]

  -- Whatever the calls of `get_jwt_token` and the server do, a client with an API key keeps
  -- authenticating its REST calls with the key: no JWT becomes its bearer or its access token.
  pub run_keeps_key :
      (calls : List (Moment × Bool)) (s : Session)
      → is_set s.access_token ≡ false
      → is_set s.api_key ≡ true
      → let d = (run k leeway other calls s).1 in
        (d.http ≡ s.http) × (d.access_token ≡ s.access_token)
  unfolding run
  run_keeps_key [] s a b = (refl, refl)
  run_keeps_key ((m, f) ∷ calls) s a b =
      let (p, q, h) = get_jwt_token_keeps m f s (a, b) in
      let d = (get_jwt_token k leeway other m f s).1 in
      let (i, j) = run_keeps_key calls d (rw p a) (rw q b) in (cc, cc)

  -- No call asks for a new token, and each comes more than the leeway before the expiry.
  abbrev pub AllEarly : ℕ → List (Moment × Bool) → Type 0
  AllEarly e [] = Unit
  AllEarly e ((m, f) ∷ calls) = ((f ≡ false) × (m.now + leeway < e)) × AllEarly e calls

  abbrev pub all_return : Str → List (Moment × Bool) → List (Result Str)
  all_return t [] = []
  all_return t (c ∷ calls) = ok t ∷ all_return t calls

  abbrev Caches : Str → ℕ → Session → Type 0
  Caches t e s = (s.cached_jwt ≡ some t) × (s.cached_jwt_exp ≡ some e)

  usable :
      (m : Moment) (t : Str) (e : ℕ) (s : Session)
      → Caches t e s
      → m.now + leeway < e
      → is_usable k leeway m false s ≡ true
  unfolding is_usable jwt_needs_refresh
  usable m t e s (c, x) h = rw (c, x) (ground (arith, h))

  cached_call :
      (m : Moment) (f : Bool) (s : Session)
      → HasKeyOnly s
      → is_usable k leeway m f s ≡ true
      → get_jwt_token k leeway other m f s ≡ (ok (text_of k leeway s.cached_jwt), s)
  unfolding get_jwt_token
  cached_call m f s (a, b) y = simp (a, b, y) refl

  login_call :
      (m : Moment) (f : Bool) (s : Session)
      → HasKeyOnly s
      → is_usable k leeway m f s ≡ false
      → get_jwt_token k leeway other m f s ≡ log_in k leeway m (text_of k leeway s.api_key) s
  unfolding get_jwt_token
  login_call m f s (a, b) y = simp (a, b, y) refl

  logged_in :
      (m : Moment) (key t : Str) (x : Option ℕ) (s : Session)
      → m.login key ≡ ok t
      → decode_jwt_exp k t ≡ ok x
      → log_in k leeway m key s
        ≡ (ok t, record s { logins = s.logins + 1; cached_jwt = some t; cached_jwt_exp = x })
  unfolding log_in
  logged_in m key t x s l d = rw (log_in, l, d) refl

  returned_by_login :
      (m : Moment) (key t : Str) (s : Session)
      → (log_in k leeway m key s).0 ≡ ok t
      → m.login key ≡ ok t
  unfolding log_in
  returned_by_login m key t s h = elim (Result-cases (m.login key)) [
    | inr (e, q) ↦ ground (arith, q, h)
    | inl (u, q) ↦ elim (Result-cases (decode_jwt_exp k u)) [
      | inr (e, r) ↦ ground (arith, q, r, h)
      | inl (e, r) ↦ ground (arith, q, r, h)
    ]
  ]

  run_cached :
      (calls : List (Moment × Bool)) (t : Str) (e : ℕ) (s : Session)
      → HasKeyOnly s
      → Caches t e s
      → AllEarly e calls
      → run k leeway other calls s ≡ (all_return t calls, s)
  unfolding run
  run_cached [] t e s h c a = refl
  run_cached ((m, f) ∷ calls) t e s h c a =
      let u : is_usable k leeway m f s ≡ true = rw (a.0.0) (usable m t e s c a.0.1) in
      let same = cached_call m f s h u ∙ ap (λ x. (ok (text_of k leeway x), s)) c.0 in
      rw same (ap (λ r. (ok t ∷ r.0, r.1)) (run_cached calls t e s h c a.1))

  -- For a client with an API key, no access token and an empty cache: after a login whose token has
  -- a readable expiry, all further calls that do not ask for a new token and come more than the
  -- leeway before that expiry return the same token, without another login.
  pub run_one_login :
      (m : Moment) (f : Bool) (calls : List (Moment × Bool)) (key t : Str) (e : ℕ) (s : Session)
      → is_set s.access_token ≡ false
      → s.api_key ≡ some key
      → is_set (some key) ≡ true
      → s.cached_jwt ≡ none
      → m.login key ≡ ok t
      → decode_jwt_exp k t ≡ ok (some e)
      → AllEarly e calls
      → let (rs, d) = run k leeway other ((m, f) ∷ calls) s in
        (rs ≡ ok t ∷ all_return t calls) × (d.logins ≡ s.logins + 1)
  unfolding run is_usable
  run_one_login m f calls key t e s a b i c l x early =
      let d = record s { logins = s.logins + 1; cached_jwt = some t; cached_jwt_exp = some e } in
      let h : HasKeyOnly s = (a, rw b i) in
      let unusable : is_usable k leeway m f s ≡ false = ground (arith, c) in
      let first =
        login_call m f s h unusable
        ∙ ap (λ key'. log_in k leeway m (text_of k leeway key') s) b
        ∙ logged_in m key t (some e) s l x in
      let rest = run_cached calls t e d h (refl, refl) early in
      rw first (ap (λ r. ok t ∷ r.0) rest, ap (λ r. r.1.logins) rest)

  early_of :
      (m : Moment) (t : Str) (f : Bool) (c : Option Str) (x : Option ℕ)
      → (not f && is_some c && not (jwt_needs_refresh leeway m.now x)) ≡ true
      → text_of k leeway c ≡ t
      → (f ≡ false) × (c ≡ some t) × ((e : ℕ) × ((x ≡ some e) × (m.now + leeway < e)))
  unfolding jwt_needs_refresh
  early_of m t true c x y h = cc
  early_of m t false none x y h = cc
  early_of m t false (some u) none y h = cc
  early_of m t false (some u) (some e) y h = (refl, ap some h, (e, (refl, ground (arith, y))))

  cached_is_early :
      (m : Moment) (f : Bool) (t : Str) (s : Session)
      → is_usable k leeway m f s ≡ true
      → ok (text_of k leeway s.cached_jwt) ≡ ok t
      → (f ≡ false)
        × (s.cached_jwt ≡ some t)
        × ((e : ℕ) × ((s.cached_jwt_exp ≡ some e) × (m.now + leeway < e)))
  unfolding is_usable
  cached_is_early m f t s y h = early_of m t f s.cached_jwt s.cached_jwt_exp y cc

  -- A token that is returned to a client with a key comes from a login in that call, or from the
  -- cache, more than the leeway before the expiry that the cache has for it.
  pub get_jwt_token_fresh :
      (m : Moment) (f : Bool) (t : Str) (s : Session)
      → is_set s.access_token ≡ false
      → is_set s.api_key ≡ true
      → (get_jwt_token k leeway other m f s).0 ≡ ok t
      → (m.login (text_of k leeway s.api_key) ≡ ok t)
        ⊎ ((f ≡ false)
            × (s.cached_jwt ≡ some t)
            × ((e : ℕ) × ((s.cached_jwt_exp ≡ some e) × (m.now + leeway < e))))
  get_jwt_token_fresh m f t s a b h = elim (Bool-cases (is_usable k leeway m f s)) [
    | inr n ↦ inl (
        returned_by_login m (text_of k leeway s.api_key) t s
          (sym (ap (λ r. r.0) (login_call m f s (a, b) n)) ∙ h))
    | inl y ↦ inr (cached_is_early m f t s y (sym (ap (λ r. r.0) (cached_call m f s (a, b) y)) ∙ h))
  ]
