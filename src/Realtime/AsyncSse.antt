-- ===== src/Realtime/AsyncSse.antt =====
-- src/spooled/realtime/sse.py: the generator `events()` of `AsyncSSEClient`, which splits the
-- stream into events itself. Apart from that it is the machine of Realtime.Sse: `connect`, `close`
-- and the reconnects have the code of the other client, with awaits. A line is what httpx's
-- `aiter_lines` yields.
pub mod Lines
mod Examples
use spooled_sdk_python.Prelude.{
  ℕ, zero, suc, ◌+◌, ◌&&◌, Bool, true, false, Option, none, some, List, [], ◌∷◌, ◌++◌, Str, codes,
  strip, starts_with, is_true, if◌then◌else◌,
}
use spooled_sdk_python.Json.{Value}
use spooled_sdk_python.Realtime.Events.{RealtimeEvent, Clock}
use spooled_sdk_python.Realtime.Sse.{
  SseClient, Place, reading, Answer, frame, Events, Turn, quiet, returned, step, cons_event, one_if,
  Run,
}

-- `line[n:]`.
unfoldable pub from : ℕ → Str → Str
from zero s = s
from (suc n) [] = []
from (suc n) (c ∷ s) = from n s

-- The locals `current_event` and `current_data`.
pub record Reader : Type 0 where
  pub current_event : Str
  pub current_data : Str

abbrev pub start : Reader
start = record { current_event = []; current_data = [] }

abbrev pub is_empty : Str → Bool
is_empty [] = true
is_empty (c ∷ s) = false

-- A line, and the event that it ends, if it ends one.
unfoldable pub read_line : Str → Reader → Option (Str × Str) × Reader
read_line l r =
    if starts_with (codes "event:") l
    then (none, record r { current_event = strip (from 6 l) })
    else if starts_with (codes "data:") l
    then (none, record r { current_data = strip (from 5 l) })
    else if is_empty l && is_true r.current_data
    then (some (r.current_event, r.current_data), start)
    else (none, r)

abbrev pub found : Option (Str × Str) → List (Str × Str) → List (Str × Str)
found none fs = fs
found (some f) fs = f ∷ fs

-- The events of a list of lines.
unfoldable pub read_lines : List Str → Reader → List (Str × Str)
read_lines [] r = []
read_lines (l ∷ ls) r = let (e, r') = read_line l r in found e (read_lines ls r')

-- A line of the stream, or what else may happen; a frame as a whole does not.
pub data Input : Type 0 where
  line : Str → Input
  other : Answer → Input

pub record AsyncEvents : Type 0 where
  pub events : Events
  pub reader : Reader

-- A turn of the other client, with the locals after it.
pub record AsyncTurn : Type 0 where
  pub turn : Turn
  pub reader : Reader

abbrev pub is_reading : Place → Bool
is_reading reading = true
is_reading _ = false

abbrev pub is_frame : Answer → Bool
is_frame (frame t s) = true
is_frame _ = false

module _ (loads : Str → Option Value) (k : Clock) where
  abbrev pub with_event : Option (Str × Str) → Events → Turn
  with_event none s = quiet s
  with_event (some (event_type, text)) s = step loads k s.place (frame event_type text) s.client

  -- The body of `async for`.
  unfoldable pub take_line : Str → Reader → Events → AsyncTurn
  take_line l r s =
      if s.client.closed
      then record { turn = quiet (returned s.client); reader = r }
      else record { turn = with_event (read_line l r).0 s; reader = (read_line l r).1 }

  -- Whatever ends a read of the stream is followed by empty locals.
  unfoldable pub async_step : Input → AsyncEvents → AsyncTurn
  async_step (line l) s =
      if is_reading s.events.place
      then take_line l s.reader s.events
      else record { turn = quiet s.events; reader = s.reader }
  async_step (other a) s =
      if is_frame a
      then record { turn = quiet s.events; reader = s.reader }
      else record { turn = step loads k s.events.place a s.events.client; reader = start }

  unfoldable pub async_run : List Input → AsyncEvents → Run
  async_run [] s = record { events = s.events; yields = []; dials = 0 }
  async_run (i ∷ rest) s =
      let t = async_step i s in
      let r = async_run rest (record { events = t.turn.events; reader = t.reader }) in
      record {
        events = r.events;
        yields = cons_event t.turn.event r.yields;
        dials = one_if t.turn.dials + r.dials;
      }
