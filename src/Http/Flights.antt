-- ===== src/Http/Flights.antt =====
-- src/spooled/utils/http.py: requests of several threads that meet an expired token. The lock lets one
-- `_try_refresh_token` after the other run, in any order; each has read its token before, with its
-- request.
use spooled_sdk_python.Prelude.{
  Bool, true, false, Option, some, List, [], ◌∷◌, Str, ◌≡◌, refl, ap, ◌∙◌,
}
use spooled_sdk_python.Errors.{Result, ok}
use spooled_sdk_python.Effects.{M}
use spooled_sdk_python.Http.Pipeline.{Net, same_token, try_refresh_token, try_refresh_with}

module _ {S : Type 0} (net : Net S) where
  open net use {cl, refresh_token_fn}

  -- The threads in the order in which they get the lock, with what each returns.
  unfoldable pub refresh_all : List (Option Str) → S → List (Result Bool) × S
  refresh_all [] s = ([], s)
  refresh_all (before ∷ rest) s =
      let (r, s') = try_refresh_token net before s in
      let (rs, d) = refresh_all rest s' in (r ∷ rs, d)

  -- Every thread of a list has read another token than the one given.
  abbrev pub AllOlder : Option Str → List (Option Str) → Type 0
  AllOlder t [] = Unit
  AllOlder t (before ∷ rest) = (same_token t before ≡ false) × AllOlder t rest

  abbrev pub all_done : List (Option Str) → List (Result Bool)
  all_done [] = []
  all_done (before ∷ rest) = ok true ∷ all_done rest

  try_refresh_older :
      (before : Option Str) (s : S)
      → same_token (cl.get s).auth_token before ≡ false
      → (f : M S (Unit {0})) → refresh_token_fn ≡ some f
      → try_refresh_token net before s ≡ (ok true, s)
  unfolding try_refresh_token try_refresh_with
  try_refresh_older before s h f q = rw q (simp h refl)

  joined :
      (befores : List (Option Str)) (s : S)
      → (f : M S (Unit {0})) → refresh_token_fn ≡ some f
      → AllOlder (cl.get s).auth_token befores
      → refresh_all befores s ≡ (all_done befores, s)
  unfolding refresh_all
  joined [] s f q a = refl
  joined (b ∷ rest) s f q a =
      rw (try_refresh_older b s a.0 f q) (ap (λ r. (ok true ∷ r.0, r.1)) (joined rest s f q a.1))

  -- Once a refresh has succeeded and changed the token, the threads that have read an older one all
  -- go on with the new one: none of them refreshes again or changes anything.
  pub refresh_single_flight :
      (before : Option Str) (rest : List (Option Str)) (s : S)
      → (f : M S (Unit {0})) → refresh_token_fn ≡ some f
      → (try_refresh_token net before s).0 ≡ ok true
      → AllOlder (cl.get (try_refresh_token net before s).1).auth_token rest
      → refresh_all (before ∷ rest) s
        ≡ (ok true ∷ all_done rest, (try_refresh_token net before s).1)
  unfolding refresh_all
  refresh_single_flight before rest s f q h a =
      let d = (try_refresh_token net before s).1 in
      ap (λ r. ((try_refresh_token net before s).0 ∷ r.0, r.1)) (joined rest d f q a)
      ∙ ap (λ r. (r ∷ all_done rest, d)) h
