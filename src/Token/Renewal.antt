-- ===== src/Token/Renewal.antt =====
-- src/spooled/client.py: the renewal of a configured access token.
use spooled_sdk_python.Prelude.{
  ℕ, ◌+◌, ◌≤◌, leb, Bool, true, false, some, ◌∷◌, Str, str_eq_refl, ◌≡◌, refl, ◌∙◌, ap, arith,
}
use spooled_sdk_python.Errors.{Exn, Result, ok, raised}
use spooled_sdk_python.Http.Pipeline.{Net, try_refresh_token, try_refresh_with, refresh_once}
use spooled_sdk_python.Effects.{M, pure, gets, ◌>>=◌}
use spooled_sdk_python.Token.{
  Decoder, Session, Moment, decode_jwt_exp, jwt_needs_refresh, can_refresh, refresh_access_token,
  refresh_now, refresh_static_token_if_due, text_of, get_jwt_token,
}

bind_of :
    {S A B : Type 0} (x : M S A) (g : A → M S B) (s : S) (a : A)
    → (x s).0 ≡ ok a
    → (x >>= g) s ≡ g a (x s).1
bind_of {S = S} {B = B} x g s a h =
    ap (λ r. elim r as (λ z. Result B × S) [ ok b ↦ g b (x s).1 | raised e ↦ (raised e, (x s).1) ])
      h

module _ (k : Decoder) (leeway : ℕ) (other : Net Session) where
  -- A client with an access token and what renews it, both not empty; the REST calls carry the
  -- access token.
  abbrev pub holding : (a : ℕ × Str) (r : ℕ × Str) → Session → Session
  holding a r s = record s {
    access_token = some (a.0 ∷ a.1);
    refresh_token = some (r.0 ∷ r.1);
    auto_refresh_token = true;
    http = record (s.http) { auth_token = some (a.0 ∷ a.1) };
  }

  module _ (m : Moment) (a r : ℕ × Str) (e : ℕ) (s : Session) where
    refresh_now_ok :
        (t : Str)
        → m.refresh (r.0 ∷ r.1) ≡ ok t
        → let d = refresh_now k leeway other m (holding a r s) in
          (d.0 ≡ ok true) × (d.1.access_token ≡ some t) × (d.1.http.auth_token ≡ some t)
    unfolding can_refresh refresh_now refresh_access_token try_refresh_token try_refresh_with
        refresh_once
    refresh_now_ok t q =
        let same = str_eq_refl (a.0 ∷ a.1) in
        (rw (same, q) refl, simp (same, q) refl, simp (same, q) refl)

    refresh_now_raised :
        (x : Exn)
        → m.refresh (r.0 ∷ r.1) ≡ raised x
        → let d = refresh_now k leeway other m (holding a r s) in
          (d.0 ≡ ok false)
          × (d.1.access_token ≡ some (a.0 ∷ a.1))
          × (d.1.http.auth_token ≡ some (a.0 ∷ a.1))
    unfolding can_refresh refresh_now refresh_access_token try_refresh_token try_refresh_with
        refresh_once
    refresh_now_raised x q =
        let same = str_eq_refl (a.0 ∷ a.1) in
        (rw (same, q) refl, simp (same, q) refl, simp (same, q) refl)

    static_call :
        decode_jwt_exp k (a.0 ∷ a.1) ≡ ok (some e)
        → e ≤ m.now + leeway
        → (b : Bool) → (refresh_now k leeway other m (holding a r s)).0 ≡ ok b
        → refresh_static_token_if_due k leeway other m (holding a r s)
          ≡ (ok tt, (refresh_now k leeway other m (holding a r s)).1)
    unfolding refresh_static_token_if_due can_refresh jwt_needs_refresh
    static_call x h b q =
        let due : leb e (m.now + leeway) ≡ true = ground (arith, h) in
        simp (x, due) (bind_of (refresh_now k leeway other m) (λ o. pure tt) (holding a r s) b q)

    due_call :
        decode_jwt_exp k (a.0 ∷ a.1) ≡ ok (some e)
        → e ≤ m.now + leeway
        → (b : Bool) → (refresh_now k leeway other m (holding a r s)).0 ≡ ok b
        → let d = refresh_now k leeway other m (holding a r s) in
          (f : Bool)
          → get_jwt_token k leeway other m f (holding a r s)
            ≡ (ok (text_of k leeway d.1.access_token), d.1)
    unfolding get_jwt_token
    due_call x h b q f =
        let st = static_call x h b q in
        bind_of (refresh_static_token_if_due k leeway other m)
          (λ u. gets (λ z. text_of k leeway z.access_token)) (holding a r s) tt (ap (λ z. z.0) st)
        ∙ ap (λ z. (ok (text_of k leeway z.1.access_token), z.1)) st

    -- A configured access token that has a readable expiry within the leeway, a refresh token
    -- beside it and the renewal switched on is renewed first, whatever `force_refresh` is: the
    -- token that the server gives is returned, and it is the one that the REST calls carry from
    -- then on.
    pub get_jwt_token_renews :
        (t : Str) (f : Bool)
        → decode_jwt_exp k (a.0 ∷ a.1) ≡ ok (some e)
        → e ≤ m.now + leeway
        → m.refresh (r.0 ∷ r.1) ≡ ok t
        → let d = get_jwt_token k leeway other m f (holding a r s) in
          (d.0 ≡ ok t) × (d.1.access_token ≡ some t) × (d.1.http.auth_token ≡ some t)
    get_jwt_token_renews t f x h q =
        let (b, y, z) = refresh_now_ok t q in
        let c = due_call x h true b f in
        (rw c (ap (λ o. ok (text_of k leeway o)) y), rw c y, rw c z)

    -- Where the server does not renew it, nothing is raised: the old token is returned, and stays.
    pub get_jwt_token_survives :
        (x : Exn) (f : Bool)
        → decode_jwt_exp k (a.0 ∷ a.1) ≡ ok (some e)
        → e ≤ m.now + leeway
        → m.refresh (r.0 ∷ r.1) ≡ raised x
        → let d = get_jwt_token k leeway other m f (holding a r s) in
          (d.0 ≡ ok (a.0 ∷ a.1))
          × (d.1.access_token ≡ some (a.0 ∷ a.1))
          × (d.1.http.auth_token ≡ some (a.0 ∷ a.1))
    get_jwt_token_survives x f y h q =
        let (b, u, z) = refresh_now_raised x q in
        let c = due_call y h false b f in
        (rw c (ap (λ o. ok (text_of k leeway o)) u), rw c u, rw c z)
