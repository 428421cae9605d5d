-- ===== src/Grpc/Examples.antt =====
-- src/spooled/grpc/client.py on concrete errors and requests.
use spooled_sdk_python.Prelude.{
  lower, strip, ℕ, true, false, Option, none, some, List, [], ◌∷◌, ◌++◌, Str, codes, ◌≡◌, refl,
}
use spooled_sdk_python.Errors.{spooled, ok, is_lease_expired}
use spooled_sdk_python.Grpc.Errors
use spooled_sdk_python.Grpc.Leases.{is_lease_expired-map_grpc_error}
use spooled_sdk_python.Grpc.Requests.{Stream, Step, sends, gets, checks, run}
use spooled_sdk_python.Grpc.Order.{requests, sent, run_in_order}
use spooled_sdk_python.Grpc.Ends.{end, rounds, end_delivers, late_end, end_loses}

abbrev no_int : Str → Option ℕ
no_int s = none

abbrev lost : Errors.RpcError
lost = record {
  code = Errors.failed_precondition;
  details = some (codes " Lease expired ");
  trailing = [];
}

is_lease_expired-map_grpc_error_example :
    is_lease_expired (spooled (Errors.map_grpc_error no_int lost)) ≡ ok true
unfolding Errors.is_grpc_lease_lost lower strip
is_lease_expired-map_grpc_error_example = is_lease_expired-map_grpc_error no_int lost

abbrev capped : Errors.RpcError
capped = record {
  code = Errors.resource_exhausted;
  details = some (codes "Daily job Limit reached");
  trailing = (codes "Retry-After", codes "soon") ∷ [];
}

abbrev fresh : Stream ℕ
fresh = record { queue = []; ended = false; met_empty = false; finished = false; yielded = [] }

abbrev mixed : List (Step ℕ)
mixed = sends 1 ∷ gets ∷ gets ∷ sends 2 ∷ sends 3 ∷ checks ∷ gets ∷ []

run_in_order_example :
    (run ℕ mixed fresh).yielded ++ requests (run ℕ mixed fresh).queue ≡ 1 ∷ 2 ∷ 3 ∷ []
unfolding requests sent
run_in_order_example = run_in_order mixed fresh

abbrev loaded : Stream ℕ
loaded = record {
  queue = some 1 ∷ some 2 ∷ [];
  ended = false;
  met_empty = false;
  finished = false;
  yielded = [];
}

end_delivers_example :
    let d = run ℕ (checks ∷ rounds loaded.queue) (end loaded) in
    (d.yielded ≡ 1 ∷ 2 ∷ []) × (d.finished ≡ true)
unfolding requests
end_delivers_example = end_delivers loaded refl refl

-- A request that is sent between `queue.Empty` and the read of `_ended`, with `end()` behind it.
late_request :
    let d = run ℕ (late_end 7 ++ gets ∷ checks ∷ []) fresh in (d.yielded ≡ []) × (d.finished ≡ true)
late_request = end_loses 7 (gets ∷ checks ∷ []) fresh refl refl refl
