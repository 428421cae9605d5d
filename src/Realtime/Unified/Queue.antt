-- ===== src/Realtime/Unified/Queue.antt =====
-- src/spooled/realtime/unified.py: the queue between the receive thread and the generator
-- `events()`, and the handlers that `_dispatch_event` calls, given by what they are called with.
-- `maxsize` is 10000 in the code.
pub mod Latest
use spooled_sdk_python.Prelude.{
  ℕ, zero, suc, ◌-◌, ◌≤◌, ◌<◌, length-append, ltb, Option, none, some, List, [], ◌∷◌, ◌++◌, length,
  if◌then◌else◌, ◌≡◌, refl, sym, ◌∙◌, ap, arith, Bool-cases, if_true, if_false, inl, inr,
}
use spooled_sdk_python.Realtime.Events.{RealtimeEvent}

-- `handled` is what the handlers for all events were called with, first event first; `buffer` is
-- the `queue.Queue`, none until `events()` is used.
pub record Feed : Type 0 where
  pub maxsize : ℕ
  pub buffer : Option (List RealtimeEvent)
  pub handled : List RealtimeEvent

-- `put_nowait`, where the queue is not full, and where its oldest event makes room.
abbrev pub tail : List RealtimeEvent → List RealtimeEvent
tail [] = []
tail (e ∷ es) = es

unfoldable pub put : ℕ → RealtimeEvent → List RealtimeEvent → List RealtimeEvent
put n e q =
    let rest = tail q in
    if ltb (length q) n then q ++ e ∷ [] else if ltb (length rest) n then rest ++ e ∷ [] else rest

abbrev pub put_if : ℕ → RealtimeEvent → Option (List RealtimeEvent) → Option (List RealtimeEvent)
put_if n e none = none
put_if n e (some q) = some (put n e q)

unfoldable pub dispatch_event : RealtimeEvent → Feed → Feed
dispatch_event e f = record f {
  handled = f.handled ++ e ∷ [];
  buffer = put_if f.maxsize e f.buffer;
}

-- `events()`: its first lines, and a `get` of its loop, none where the queue is empty.
abbrev pub opened : Option (List RealtimeEvent) → Option (List RealtimeEvent)
opened none = some []
opened (some q) = some q

unfoldable pub open_events : Feed → Feed
open_events f = record f { buffer = opened f.buffer }

abbrev pub head : Option (List RealtimeEvent) → Option RealtimeEvent
head none = none
head (some []) = none
head (some (e ∷ q)) = some e

abbrev pub behead : Option (List RealtimeEvent) → Option (List RealtimeEvent)
behead none = none
behead (some q) = some (tail q)

unfoldable pub next_event : Feed → Option RealtimeEvent × Feed
next_event f = (head f.buffer, record f { buffer = behead f.buffer })
