-- ===== src/Token.antt =====
-- src/spooled/client.py: the tokens of a `SpooledClient`, with src/spooled/utils/jwt.py. `Decoder` is
-- Python's base64, json and float; a claim before the epoch counts as the epoch, which is as late for
-- every clock. The calls of `/auth/login` and `/auth/refresh` are what the server answers; neither
-- changes a token by itself, since the first is made by clients without an access token only, and the
-- second with `active` set. The renewal is that of `_try_refresh_token`, in Http.Pipeline.
pub mod Cache
pub mod Renewal
mod Examples
use spooled_sdk_python.Prelude.{
  ℕ, ◌+◌, ◌==◌, ◌&&◌, ◌||◌, not, leb, Bool, true, false, ◌≡◌, refl, Option, none, some, List, [],
  ◌∷◌, ◌++◌, Str, codes, is_set, is_some, is_true, length, if◌then◌else◌,
}
use spooled_sdk_python.Prelude.Int.{ℤ}
use spooled_sdk_python.Json.{Value, null, bool, int, float, obj, get_or, str}
use spooled_sdk_python.Errors.{Result, ok, raised, Exn, spooled, authentication_error}
use spooled_sdk_python.Effects.{M, Part, pure, raise, lift, gets, modify, ◌>>=◌, ◌>>◌}
use spooled_sdk_python.Http.{Client}
use spooled_sdk_python.Http.Pipeline.{Net, try_refresh_token}

pub record Decoder : Type 0 where
  -- `json.loads(base64.urlsafe_b64decode(text))`, none for a binascii.Error or a ValueError.
  pub claims_of : Str → Option Value
  -- `float`, which raises an OverflowError for a large `int`.
  pub time_of_int : ℤ → Result ℕ
  pub time_of_float : ℤ → ℕ → ℕ

-- `token.split(".")`.
abbrev add_to_first : ℕ → List Str → List Str
add_to_first c [] = (c ∷ []) ∷ []
add_to_first c (p ∷ ps) = (c ∷ p) ∷ ps

unfoldable pub split_dots : Str → List Str
split_dots [] = [] ∷ []
split_dots (c ∷ s) = let rest = split_dots s in if c == b'.' then [] ∷ rest else add_to_first c rest

-- `"=" * (-len(segment) % 4)`, for a segment whose first characters are read.
unfoldable pub padding : Str → Str
padding [] = []
padding (a ∷ []) = codes "==="
padding (a ∷ b ∷ []) = codes "=="
padding (a ∷ b ∷ c ∷ []) = codes "="
padding (a ∷ b ∷ c ∷ d ∷ s) = padding s

abbrev some_time : Result ℕ → Result (Option ℕ)
some_time (ok t) = ok (some t)
some_time (raised e) = raised e

unfoldable pub exp_of : Decoder → Value → Result (Option ℕ)
exp_of k (int i) = some_time (k.time_of_int i)
exp_of k (float m n) = ok (some (k.time_of_float m n))
exp_of k _ = ok none

abbrev exp_claim : Decoder → Option Value → Result (Option ℕ)
exp_claim k (some (obj fs)) = exp_of k (get_or (codes "exp") null fs)
exp_claim k _ = ok none

abbrev of_parts : Decoder → List Str → Result (Option ℕ)
of_parts k (h ∷ p ∷ s ∷ []) = exp_claim k (k.claims_of (p ++ padding p))
of_parts k _ = ok none

unfoldable pub decode_jwt_exp : Decoder → Str → Result (Option ℕ)
unfolding exp_of split_dots padding
decode_jwt_exp k token = of_parts k (split_dots token)

unfoldable pub jwt_needs_refresh : ℕ → ℕ → Option ℕ → Bool
jwt_needs_refresh leeway now none = true
jwt_needs_refresh leeway now (some e) = leb e (now + leeway)

-- The attributes of the client that the tokens are kept in. `logins` counts the calls of
-- `/auth/login`.
pub record Session : Type 0 where
  pub api_key : Option Str
  pub access_token : Option Str
  pub refresh_token : Option Str
  pub auto_refresh_token : Bool
  pub http : Client
  pub cached_jwt : Option Str
  pub cached_jwt_exp : Option ℕ
  pub logins : ℕ

abbrev pub or_key : Option Str → Option Str → Option Str
or_key a k = if is_set a then a else k

-- `SpooledClient.__init__` and `HttpClient.__init__`.
unfoldable pub new_session : (api_key access_token refresh_token : Option Str) → Bool → Session
new_session api_key access_token refresh_token auto = record {
  api_key = api_key;
  access_token = access_token;
  refresh_token = refresh_token;
  auto_refresh_token = auto;
  http = record { auth_token = or_key access_token api_key; rate_limit = none; active = false };
  cached_jwt = none;
  cached_jwt_exp = none;
  logins = 0;
}

-- The clock and the server during one call.
pub record Moment : Type 0 where
  pub now : ℕ
  pub login : Str → Result Str
  pub refresh : Str → Result Str

abbrev pub http_part : Part Session Client
http_part = record {
  get = λ s. s.http;
  set = λ c s. record s { http = c };
  get-set = λ a s. refl;
  set-set = λ a b s. refl;
  set-get = λ s. refl;
}

abbrev pub same : {A : Type 0} → A → Session → Result A × Session
same a s = (ok a, s)

abbrev missing : Str → Exn
missing message = spooled (
    authentication_error (record {
      message = str message;
      code = str (codes "authentication_error");
      details = null;
      request_id = none;
    }))

module _ (k : Decoder) (leeway : ℕ) where
  abbrev install : Str → M Session Str
  install t s =
      (ok t, record s { http = record (s.http) { auth_token = some t }; access_token = some t })

  -- `_refresh_access_token`.
  unfoldable pub refresh_access_token : Moment → M Session Str
  refresh_access_token m s = elim s.refresh_token [
    | none ↦ raise (missing (codes "No refresh token available")) s
    | some [] ↦ raise (missing (codes "No refresh token available")) s
    | some (c ∷ r) ↦ elim (m.refresh (c ∷ r)) [ ok t ↦ install t s | raised e ↦ raise e s ]
  ]

  -- Whether `__init__` sets the function that renews the token. What it looks at stays set or unset.
  unfoldable pub can_refresh : Session → Bool
  can_refresh s = is_set s.access_token && is_set s.refresh_token && s.auto_refresh_token

  abbrev done : Str → M Session (Unit {0})
  done t s = (ok tt, s)

  abbrev pub renewal : Moment → Session → Option (M Session (Unit {0}))
  renewal m s = if can_refresh s then some (refresh_access_token m >>= done) else none

  -- `refresh_now`.
  unfoldable pub refresh_now : Net Session → Moment → M Session Bool
  unfolding can_refresh refresh_access_token
  refresh_now other m s =
      try_refresh_token (record other { cl = http_part; refresh_token_fn = renewal m s })
        s.http.auth_token s

  abbrev pub text_of : Option Str → Str
  text_of none = []
  text_of (some t) = t

  abbrev renew_if : Bool → Net Session → Moment → M Session (Unit {0})
  renew_if false other m = pure tt
  renew_if true other m = do done ← refresh_now other m; pure tt

  -- An unknown expiry is left alone here.
  abbrev pub is_due : Moment → Option ℕ → Bool
  is_due m none = false
  is_due m (some e) = jwt_needs_refresh leeway m.now (some e)

  unfoldable pub refresh_static_token_if_due : Net Session → Moment → M Session (Unit {0})
  refresh_static_token_if_due other m s =
      let token = text_of s.access_token in
      let renew : M Session (Unit {0}) = (do
        e ← lift (decode_jwt_exp k token)
        renew_if (is_due m e) other m) in
      if can_refresh s then renew s else same tt s

  -- The exchange of the key for a token; the token is kept before its expiry is read.
  unfoldable pub log_in : Moment → Str → M Session Str
  log_in m key s =
      let asked = record s { logins = s.logins + 1 } in
      elim (m.login key) [
        | raised e ↦ raise e asked
        | ok t ↦
            let kept = record asked { cached_jwt = some t } in
            elim (decode_jwt_exp k t) [
              | raised e ↦ raise e kept
              | ok e ↦ same t (record kept { cached_jwt_exp = e })
            ]
      ]

  -- The test of the cache.
  unfoldable pub is_usable : Moment → Bool → Session → Bool
  unfolding jwt_needs_refresh
  is_usable m force_refresh s =
      not force_refresh
      && is_some s.cached_jwt
      && not (jwt_needs_refresh leeway m.now s.cached_jwt_exp)

  abbrev by_key : Moment → Bool → M Session Str
  by_key m force_refresh s =
      if is_usable m force_refresh s
      then same (text_of s.cached_jwt) s
      else log_in m (text_of s.api_key) s

  abbrev by_token : Net Session → Moment → M Session Str
  by_token other m = do u ← refresh_static_token_if_due other m; gets (λ s. text_of s.access_token)

  unfoldable pub get_jwt_token : Net Session → Moment → Bool → M Session Str
  get_jwt_token other m force_refresh s =
      if is_set s.access_token
      then by_token other m s
      else if is_set s.api_key
      then by_key m force_refresh s
      else raise (missing (codes "No authentication method available")) s

  -- Calls one after the other, each with its clock, its server and `force_refresh`: what each returns
  -- or raises.
  unfoldable pub run : Net Session → List (Moment × Bool) → Session → List (Result Str) × Session
  run other [] s = ([], s)
  run other ((m, f) ∷ calls) s =
      let (r, s') = get_jwt_token other m f s in let (rs, d) = run other calls s' in (r ∷ rs, d)
