-- ===== src/Grpc/Order.antt =====
-- src/spooled/grpc/client.py: which requests of a stream reach the server, and in which order.
use mathlib.Core.List.{append_assoc, append-nil}
use spooled_sdk_python.Prelude.{
  Option, none, some, List, [], ◌∷◌, ◌++◌, ◌≡◌, refl, sym, ap, ◌∙◌, Bool-cases, inl, inr, not, ◌||◌,
}
use spooled_sdk_python.Grpc.Requests.{
  Stream, Step, get_next, sends, marks_ended, puts_end, gets, checks, request_generator,
  check_ended, step, run,
}

module _ {ℓ} {R : Type ℓ} where
  -- The requests of a queue.
  unfoldable pub requests : List (Option R) → List R
  requests [] = []
  requests (none ∷ q) = requests q
  requests (some r ∷ q) = r ∷ requests q

  -- The requests that are sent.
  unfoldable pub sent : List (Step R) → List R
  sent [] = []
  sent (sends r ∷ ms) = r ∷ sent ms
  sent (_ ∷ ms) = sent ms

  requests-append :
      (q : List (Option R)) (x : Option R)
      → requests (q ++ x ∷ []) ≡ requests q ++ requests (x ∷ [])
  unfolding requests
  requests-append [] none = refl
  requests-append [] (some r) = refl
  requests-append (none ∷ q) x = requests-append q x
  requests-append (some r ∷ q) x = ap (λ rs. r ∷ rs) (requests-append q x)

  -- The requests that the generator has yielded, and those that wait for it.
  abbrev pub accepted : Stream R → List R
  accepted s = s.yielded ++ requests s.queue

  get_next_keeps :
      (q : List (Option R)) (s : Stream R) → s.queue ≡ q → accepted (get_next R q s) ≡ accepted s
  unfolding requests
  get_next_keeps [] s e = refl
  get_next_keeps (none ∷ q) s e = ap (λ x. s.yielded ++ requests x) (sym e)
  get_next_keeps (some r ∷ q) s e =
      append_assoc s.yielded (r ∷ []) (requests q) ∙ ap (λ x. s.yielded ++ requests x) (sym e)

  request_generator_keeps : (s : Stream R) → accepted (request_generator R s) ≡ accepted s
  unfolding request_generator
  request_generator_keeps s = elim (Bool-cases (s.finished || s.met_empty)) [
    | inl y ↦ rw y refl
    | inr n ↦ rw n (get_next_keeps s.queue s refl)
  ]

  check_ended_keeps : (s : Stream R) → accepted (check_ended R s) ≡ accepted s
  unfolding check_ended
  check_ended_keeps s = elim (Bool-cases (s.finished || not s.met_empty)) [
    | inl y ↦ rw y refl
    | inr n ↦ rw n refl
  ]

  step_keeps : (m : Step R) (s : Stream R) → accepted (step R m s) ≡ accepted s ++ sent (m ∷ [])
  unfolding step requests sent
  step_keeps (sends r) s =
      rw (requests-append s.queue (some r))
        (sym (append_assoc s.yielded (requests s.queue) (r ∷ [])))
  step_keeps marks_ended s = sym (append-nil (accepted s))
  step_keeps puts_end s =
      rw (requests-append s.queue none, append-nil (requests s.queue))
        (sym (append-nil (accepted s)))
  step_keeps gets s = request_generator_keeps s ∙ sym (append-nil (accepted s))
  step_keeps checks s = check_ended_keeps s ∙ sym (append-nil (accepted s))

  sent-cons : (m : Step R) (ms : List (Step R)) → sent (m ∷ ms) ≡ sent (m ∷ []) ++ sent ms
  unfolding sent
  sent-cons (sends r) ms = refl
  sent-cons marks_ended ms = refl
  sent-cons puts_end ms = refl
  sent-cons gets ms = refl
  sent-cons checks ms = refl

  -- However the threads that send, the end and the generator interleave: what the generator has
  -- yielded, followed by what is still in the queue, is what was there at the start followed by all
  -- that has been sent since, in that order. So no request is doubled or overtaken, and one that is
  -- not yielded is still in the queue, also where the generator has left its loop.
  pub run_in_order :
      (ms : List (Step R)) (s : Stream R)
      → (run R ms s).yielded ++ requests (run R ms s).queue
        ≡ (s.yielded ++ requests s.queue) ++ sent ms
  unfolding run sent
  run_in_order [] s = sym (append-nil (accepted s))
  run_in_order (m ∷ ms) s =
      run_in_order ms (step R m s)
      ∙ ap (λ x. x ++ sent ms) (step_keeps m s)
      ∙ append_assoc (accepted s) (sent (m ∷ [])) (sent ms)
      ∙ ap (λ x. accepted s ++ x) (sym (sent-cons m ms))
