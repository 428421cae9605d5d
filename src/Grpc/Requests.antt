-- ===== src/Grpc/Requests.antt =====
-- src/spooled/grpc/client.py: the requests of `ProcessJobsStream`. Threads send them, and end or
-- cancel the stream, while gRPC takes them from the generator that `_ensure_started` makes. Each step
-- is one access to the queue, or one read or write of `_ended`; `R` is the type of the requests.
use spooled_sdk_python.Prelude.{
  Bool, true, false, not, ◌||◌, Option, none, some, List, [], ◌∷◌, ◌++◌, if◌then◌else◌,
}

module _ {ℓ} (R : Type ℓ) where
  pub record Stream : Type ℓ where
    -- `_request_queue`, where none is the end signal, and `_ended`.
    pub queue : List (Option R)
    pub ended : Bool
    -- Whether the generator has met `queue.Empty` and not yet read `_ended`, whether it has left its
    -- loop, and the requests that it has yielded.
    pub met_empty : Bool
    pub finished : Bool
    pub yielded : List R

  pub data Step : Type ℓ where
    -- `put(proto_req)` in `send`.
    sends : R → Step
    -- The two lines of `end`, which `cancel` has as well.
    marks_ended puts_end : Step
    -- The generator's `get` returns the first element, or raises `queue.Empty`; then, after the
    -- latter, it reads `_ended`. In between, other threads may run.
    gets checks : Step

  abbrev pub get_next : List (Option R) → Stream → Stream
  get_next [] s = record s { met_empty = true }
  get_next (none ∷ q) s = record s { queue = q; finished = true }
  get_next (some r ∷ q) s = record s { queue = q; yielded = s.yielded ++ r ∷ [] }

  unfoldable pub request_generator : Stream → Stream
  request_generator s = if s.finished || s.met_empty then s else get_next s.queue s

  unfoldable pub check_ended : Stream → Stream
  check_ended s =
      if s.finished || not s.met_empty
      then s
      else record s { met_empty = false; finished = s.ended }

  unfoldable pub step : Step → Stream → Stream
  unfolding request_generator check_ended
  step (sends r) s = record s { queue = s.queue ++ some r ∷ [] }
  step marks_ended s = record s { ended = true }
  step puts_end s = record s { queue = s.queue ++ none ∷ [] }
  step gets s = request_generator s
  step checks s = check_ended s

  unfoldable pub run : List Step → Stream → Stream
  run [] s = s
  run (m ∷ ms) s = run ms (step m s)
