-- ===== src/Token/Examples.antt =====
-- src/spooled/client.py on concrete tokens: a text is its own claims, and its length the expiry.
use spooled_sdk_python.Prelude.{ℕ, true, false, none, some, [], ◌∷◌, Str, codes, ◌≡◌, refl, arith}
use spooled_sdk_python.Json.{obj, field, end, float, get}
use spooled_sdk_python.Prelude.Int.{pos}
use spooled_sdk_python.Errors.{ok, raised, runtime_error}
use spooled_sdk_python.Errors.Response.{malformed}
use spooled_sdk_python.Http.{timeout_exception}
use spooled_sdk_python.Http.Pipeline.{Net}
use spooled_sdk_python.Token.{
  Decoder, Session, Moment, new_session, decode_jwt_exp, get_jwt_token, is_usable,
  jwt_needs_refresh, run, exp_of, split_dots, padding, http_part,
}
use spooled_sdk_python.Token.Cache.{run_one_login}
use spooled_sdk_python.Token.Renewal.{holding, get_jwt_token_renews}

abbrev decoder : Decoder
decoder = record {
  claims_of = λ s. some (obj (field (codes "exp") (float (pos 5000) 0) end));
  time_of_int = λ i. ok 0;
  time_of_float = λ m n. 5000;
}

abbrev net : Net Session
net = record {
  cl = http_part;
  transport = λ c s. (ok timeout_exception, s);
  readers = record { read_float = λ s. malformed; read_date = λ s. none };
  seconds = λ s. 100;
  timeout_text = λ t. codes "Request timed out";
  refresh_token_fn = none;
}

abbrev at : ℕ → Moment
at now = record { now = now; login = λ key. ok (codes "h.p.s"); refresh = λ r. ok (codes "n.p.s") }

abbrev keyed : Session
keyed = new_session (some (codes "sp_live_1")) none none true

expiry : decode_jwt_exp decoder (codes "h.p.s") ≡ ok (some 5000)
unfolding decode_jwt_exp exp_of split_dots padding get
expiry = refl

run_one_login_example :
    let (rs, d) = run decoder 60 net ((at 100, false) ∷ (at 200, false) ∷ []) keyed in
    (rs ≡ ok (codes "h.p.s") ∷ ok (codes "h.p.s") ∷ []) × (d.logins ≡ 1)
unfolding new_session
run_one_login_example =
    run_one_login decoder 60 net (at 100) false ((at 200, false) ∷ []) (codes "sp_live_1")
      (codes "h.p.s") 5000 keyed refl refl refl refl refl expiry ((refl, omega arith), tt)

abbrev cached : Session
cached = record keyed { cached_jwt = some (codes "h.p.s"); cached_jwt_exp = some 5000 }

from_cache : (get_jwt_token decoder 60 net (at 100) false cached).0 ≡ ok (codes "h.p.s")
unfolding get_jwt_token is_usable jwt_needs_refresh new_session
from_cache = refl

-- The access token "h.p.s" and the refresh token "r".
abbrev access : ℕ × Str
access = (b'h', codes ".p.s")

abbrev renewing : ℕ × Str
renewing = (b'r', [])

abbrev held : Session
held = holding decoder 60 net access renewing keyed

get_jwt_token_renews_example :
    let d = get_jwt_token decoder 60 net (at 4950) false held in
    (d.0 ≡ ok (codes "n.p.s"))
    × (d.1.access_token ≡ some (codes "n.p.s"))
    × (d.1.http.auth_token ≡ some (codes "n.p.s"))
get_jwt_token_renews_example =
    get_jwt_token_renews decoder 60 net (at 4950) access renewing 5000 keyed (codes "n.p.s") false
      expiry (omega arith) refl

abbrev down : Moment
down = record (at 4950) { refresh = λ r. raised runtime_error }
