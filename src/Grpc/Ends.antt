-- ===== src/Grpc/Ends.antt =====
-- src/spooled/grpc/client.py: what `end()` does to a stream of requests.
use mathlib.Core.List.{append_assoc, append-nil}
use spooled_sdk_python.Prelude.{
  Bool, true, false, Option, none, some, List, [], ◌∷◌, ◌++◌, ◌≡◌, refl, sym, ◌∙◌, Bool-cases, inl,
  inr, if◌then◌else◌,
}
use spooled_sdk_python.Grpc.Requests.{
  Stream, Step, sends, marks_ended, puts_end, gets, checks, request_generator, check_ended, step,
  run,
}
use spooled_sdk_python.Grpc.Order.{requests}

module _ {ℓ} {R : Type ℓ} where
  abbrev pub has_end : List (Option R) → Bool
  has_end [] = false
  has_end (none ∷ q) = true
  has_end (some r ∷ q) = has_end q

  -- `end()` without a thread in between.
  abbrev pub end : Stream R → Stream R
  end s = step R puts_end (step R marks_ended s)

  abbrev pub rounds : List (Option R) → List (Step R)
  rounds [] = gets ∷ []
  rounds (x ∷ q) = gets ∷ rounds q

  drained :
      (q : List (Option R)) (e : Bool) (ys : List R)
      → has_end q ≡ false
      → let d = run R (rounds q) (record {
        queue = q ++ none ∷ [];
        ended = e;
        met_empty = false;
        finished = false;
        yielded = ys;
      }) in
        (d.yielded ≡ ys ++ requests q) × (d.finished ≡ true)
  unfolding run step request_generator requests
  drained [] e ys h = (sym (append-nil ys), refl)
  drained (some r ∷ q) e ys h =
      let (y, f) = drained q e (ys ++ r ∷ []) h in (y ∙ append_assoc ys (r ∷ []) (requests q), f)
  drained (none ∷ q) e ys h = cc

  finished_step :
      (m : Step R) (s : Stream R)
      → s.finished ≡ true
      → ((step R m s).yielded ≡ s.yielded) × ((step R m s).finished ≡ true)
  unfolding step request_generator check_ended
  finished_step (sends r) s f = (refl, f)
  finished_step marks_ended s f = (refl, f)
  finished_step puts_end s f = (refl, f)
  finished_step gets s f = simp f (refl, refl)
  finished_step checks s f = simp f (refl, refl)

  finished_run :
      (ms : List (Step R)) (s : Stream R)
      → s.finished ≡ true
      → ((run R ms s).yielded ≡ s.yielded) × ((run R ms s).finished ≡ true)
  unfolding run
  finished_run [] s f = (refl, f)
  finished_run (m ∷ ms) s f =
      let (y, g) = finished_step m s f in let (z, d) = finished_run ms (step R m s) g in (z ∙ y, d)

  -- If the generator runs and no end signal waits yet: after `end()`, the generator's read of `_ended`
  -- where it is due, a round of the generator for each request that waits and one more, it has ended.
  -- It has then yielded every request that was sent, unless at the call of `end()` it had met
  -- `queue.Empty` and not yet read `_ended`: then it has yielded none of those that wait.
  pub end_delivers :
      (s : Stream R)
      → s.finished ≡ false
      → has_end s.queue ≡ false
      → let d = run R (checks ∷ rounds s.queue) (end s) in
        (d.yielded ≡ (if s.met_empty then s.yielded else s.yielded ++ requests s.queue))
        × (d.finished ≡ true)
  unfolding run step check_ended
  end_delivers s n h = elim (Bool-cases s.met_empty) [
    | inl y ↦ rw (n, y) (finished_run (rounds s.queue) _ refl)
    | inr m ↦ rw (n, m) (drained s.queue true s.yielded h)
  ]

  -- The steps of a request that is sent, and of `end()`, between the `queue.Empty` of the generator
  -- and its read of `_ended`.
  abbrev pub late_end : R → List (Step R)
  late_end r = gets ∷ sends r ∷ marks_ended ∷ puts_end ∷ checks ∷ []

  late_end-run :
      (r : R) (e : Bool) (ys : List R)
      → run R
          (late_end r)
          (record { queue = []; ended = e; met_empty = false; finished = false; yielded = ys })
        ≡ record {
          queue = some r ∷ none ∷ [];
          ended = true;
          met_empty = false;
          finished = true;
          yielded = ys;
        }
  unfolding run step request_generator check_ended
  late_end-run r e ys = refl

  run-append : (xs ys : List (Step R)) (s : Stream R) → run R (xs ++ ys) s ≡ run R ys (run R xs s)
  unfolding run
  run-append [] ys s = refl
  run-append (x ∷ xs) ys s = run-append xs ys (step R x s)

  -- Where the queue of a running generator is empty, and a thread sends a request and calls `end()`
  -- after the generator has met `queue.Empty` and before it reads `_ended`: the generator ends, and
  -- that request is not yielded, whatever happens afterwards.
  pub end_loses :
      (r : R) (ms : List (Step R)) (s : Stream R)
      → s.finished ≡ false
      → s.met_empty ≡ false
      → s.queue ≡ []
      → let d = run R (late_end r ++ ms) s in (d.yielded ≡ s.yielded) × (d.finished ≡ true)
  end_loses r ms s f m q =
      rw (run-append (late_end r) ms s, f, m, q, late_end-run r s.ended s.yielded)
        (finished_run ms _ refl)
