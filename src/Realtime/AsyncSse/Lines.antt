-- ===== src/Realtime/AsyncSse/Lines.antt =====
-- src/spooled/realtime/sse.py: the lines of a stream, against its frames.
use spooled_sdk_python.Prelude.{
  ◌+◌, true, false, Option, none, some, List, [], ◌∷◌, ◌++◌, Str, codes, strip, lstrip, is_space,
  starts_with, is_true, ◌≡◌, refl, sym, ◌∙◌, ap, arith, Bool-cases, inl, inr, if_true, if_false,
}
use spooled_sdk_python.Json.{Value}
use spooled_sdk_python.Realtime.Events.{Clock}
use spooled_sdk_python.Realtime.Sse.{
  SseClient, Place, connecting_first, reading, sleeping, dialing, over, Answer, frame, Events, Turn,
  quiet, returned, read_frame, step, cons_event, one_if, Run, run,
}
use spooled_sdk_python.Realtime.AsyncSse.{
  from, Reader, start, read_line, read_lines, found, Input, line, AsyncEvents, AsyncTurn,
  is_reading, take_line, with_event, async_step, async_run,
}

-- The lines that a server sends for a frame.
abbrev pub event_line : Str → Str
event_line t = codes "event: " ++ t

abbrev pub data_line : Str → Str
data_line d = codes "data: " ++ d

-- A text that is not trimmed.
abbrev pub IsTrim : Str → Type 0
IsTrim s = strip s ≡ s

read-event_line :
    (t : Str) (r : Reader)
    → IsTrim t
    → read_line (event_line t) r ≡ (none, record r { current_event = t })
unfolding read_line from strip lstrip is_space starts_with
read-event_line t r h = ap (λ s. (none, record r { current_event = s })) h

read-data_line :
    (d : Str) (r : Reader)
    → IsTrim d
    → read_line (data_line d) r ≡ (none, record r { current_data = d })
unfolding read_line from strip lstrip is_space starts_with
read-data_line d r h = ap (λ s. (none, record r { current_data = s })) h

read-blank_line :
    (t d : Str)
    → is_true d ≡ true
    → read_line [] (record { current_event = t; current_data = d }) ≡ (some (t, d), start)
unfolding read_line starts_with
read-blank_line t d h = rw h refl

-- The texts of a frame that a line can carry.
abbrev pub IsPlain : Str × Str → Type 0
IsPlain (t, d) = IsTrim t × IsTrim d × (is_true d ≡ true)

abbrev pub AllPlain : List (Str × Str) → Type 0
AllPlain [] = Unit
AllPlain (f ∷ fs) = IsPlain f × AllPlain fs

-- The stream of a list of frames, as lines and as events of the other client.
abbrev pub as_lines : List (Str × Str) → List Input
as_lines [] = []
as_lines ((t, d) ∷ fs) = line (event_line t) ∷ line (data_line d) ∷ line [] ∷ as_lines fs

abbrev pub as_frames : List (Str × Str) → List Answer
as_frames [] = []
as_frames ((t, d) ∷ fs) = frame t d ∷ as_frames fs

-- A turn, and the run that follows it.
abbrev joined : Turn → Run → Run
joined t r = record {
  events = r.events;
  yields = cons_event t.event r.yields;
  dials = one_if t.dials + r.dials;
}

quiet-joined : (s : Events) (r : Run) → joined (quiet s) r ≡ r
quiet-joined s r =
    let n : 0 + r.dials ≡ r.dials = omega arith in
    ap (λ m. record { events = r.events; yields = r.yields; dials = m }) n

module _ (loads : Str → Option Value) (k : Clock) where
  -- A line where the generator reads an open stream.
  abbrev rest_of : List Input → AsyncTurn → Run
  rest_of rest t =
      joined t.turn (async_run loads k rest (record { events = t.turn.events; reader = t.reader }))

  abbrev reads : SseClient → Reader → AsyncEvents
  reads c r = record { events = record { client = c; place = reading }; reader = r }

  line_open :
      (l : Str) (e : Option (Str × Str)) (r r' : Reader) (rest : List Input) (c : SseClient)
      → c.closed ≡ false
      → read_line l r ≡ (e, r')
      → async_run loads k (line l ∷ rest) (reads c r)
        ≡ rest_of rest (record {
          turn = with_event loads k e (record { client = c; place = reading });
          reader = r';
        })
  unfolding async_run async_step take_line
  line_open l e r r' rest c o q = ap (rest_of rest) (
      if_false _ _ _ o
      ∙ ap
          (λ (p : Option (Str × Str) × Reader). record {
            turn = with_event loads k p.0 (record { client = c; place = reading });
            reader = p.1;
          })
          q)

  line_quiet :
      (l : Str) (r r' : Reader) (rest : List Input) (c : SseClient)
      → c.closed ≡ false
      → read_line l r ≡ (none, r')
      → async_run loads k (line l ∷ rest) (reads c r) ≡ async_run loads k rest (reads c r')
  line_quiet l r r' rest c o q =
      line_open l none r r' rest c o q
      ∙ quiet-joined (record { client = c; place = reading }) (async_run loads k rest (reads c r'))

  -- The lines of one frame, before more input: where the stream is open, where the client is
  -- closed, and where the generator does not read.
  abbrev block : Str × Str → List Input → List Input
  block (t, d) rest = line (event_line t) ∷ line (data_line d) ∷ line [] ∷ rest

  block_open :
      (t d : Str) (rest : List Input) (c : SseClient)
      → IsPlain (t, d)
      → c.closed ≡ false
      → async_run loads k (block (t, d) rest) (reads c start)
        ≡ rest_of rest (record { turn = step loads k reading (frame t d) c; reader = start })
  block_open t d rest c (h, j, p) o =
      line_quiet (event_line t) start _ _ c o (read-event_line t start h)
      ∙ (line_quiet (data_line d) _ _ _ c o
            (read-data_line d (record start { current_event = t }) j)
          ∙ line_open [] (some (t, d)) _ start rest c o (read-blank_line t d p))

  abbrev stands : Place → SseClient → AsyncEvents
  stands p c = record { events = record { client = c; place = p }; reader = start }

  line_idle :
      (l : Str) (rest : List Input) (p : Place) (c : SseClient)
      → is_reading p ≡ false
      → async_run loads k (line l ∷ rest) (stands p c) ≡ async_run loads k rest (stands p c)
  unfolding async_run async_step
  line_idle l rest p c o =
      ap (rest_of rest) (if_false _ _ _ o)
      ∙ quiet-joined (record { client = c; place = p }) (async_run loads k rest (stands p c))

  frame_idle :
      (t d : Str) (p : Place) (c : SseClient)
      → is_reading p ≡ false
      → step loads k p (frame t d) c ≡ quiet (record { client = c; place = p })
  unfolding step
  frame_idle t d connecting_first c o = refl
  frame_idle t d reading c o = cc
  frame_idle t d (sleeping x e) c o = refl
  frame_idle t d (dialing x e) c o = refl
  frame_idle t d (over r) c o = refl

  block_idle :
      (t d : Str) (rest : List Input) (p : Place) (c : SseClient)
      → is_reading p ≡ false
      → async_run loads k (block (t, d) rest) (stands p c)
        ≡ rest_of rest (record { turn = step loads k p (frame t d) c; reader = start })
  block_idle t d rest p c o =
      line_idle (event_line t) _ p c o
      ∙ (line_idle (data_line d) _ p c o
          ∙ (line_idle [] rest p c o
              ∙ (sym (
                    quiet-joined (record { client = c; place = p })
                      (async_run loads k rest (stands p c)))
                  ∙ ap (λ n. rest_of rest (record { turn = n; reader = start }))
                      (sym (frame_idle t d p c o)))))

  block_closed :
      (t d : Str) (rest : List Input) (c : SseClient)
      → c.closed ≡ true
      → async_run loads k (block (t, d) rest) (stands reading c)
        ≡ rest_of rest (record { turn = step loads k reading (frame t d) c; reader = start })
  unfolding async_run async_step take_line step read_frame
  block_closed t d rest c o =
      let p = (returned c).place in
      let more = line (data_line d) ∷ line [] ∷ rest in
      ap (rest_of more) (if_true _ _ _ o)
      ∙ (quiet-joined (returned c) (async_run loads k more (stands p c))
          ∙ (line_idle (data_line d) (line [] ∷ rest) p c refl
              ∙ (line_idle [] rest p c refl
                  ∙ (sym (quiet-joined (returned c) (async_run loads k rest (stands p c)))
                      ∙ ap (λ n. rest_of rest (record { turn = n; reader = start }))
                          (sym (if_true _ _ _ o))))))

  block_run :
      (t d : Str) (rest : List Input) (p : Place) (c : SseClient)
      → IsPlain (t, d)
      → async_run loads k (block (t, d) rest) (stands p c)
        ≡ rest_of rest (record { turn = step loads k p (frame t d) c; reader = start })
  block_run t d rest reading c h = elim (Bool-cases c.closed) [
    | inl o ↦ block_closed t d rest c o
    | inr o ↦ block_open t d rest c h o
  ]
  block_run t d rest connecting_first c h = block_idle t d rest connecting_first c refl
  block_run t d rest (sleeping x e) c h = block_idle t d rest (sleeping x e) c refl
  block_run t d rest (dialing x e) c h = block_idle t d rest (dialing x e) c refl
  block_run t d rest (over r) c h = block_idle t d rest (over r) c refl

  -- On the lines of frames whose texts are trimmed and whose data is not empty, one data line to
  -- each, the asynchronous client does what the other client does on those frames: it yields the
  -- same events, dials as often, and comes to the same state, wherever its generator stands, if the
  -- locals of its reader are empty.
  pub async_run-as_lines :
      (fs : List (Str × Str)) (s : Events)
      → AllPlain fs
      → async_run loads k (as_lines fs) (record { events = s; reader = start })
        ≡ run loads k (as_frames fs) s
  unfolding async_run run
  async_run-as_lines [] s h = refl
  async_run-as_lines ((t, d) ∷ fs) s (h, hs) =
      let n = step loads k s.place (frame t d) s.client in
      block_run t d (as_lines fs) s.place s.client h
      ∙ ap (joined n) (async_run-as_lines fs n.events hs)

next_line :
    (l : Str) (ls : List Str) (r : Reader) {e : Option (Str × Str)} {r' : Reader}
    → read_line l r ≡ (e, r')
    → read_lines (l ∷ ls) r ≡ found e (read_lines ls r')
unfolding read_lines
next_line l ls r q = ap (λ (p : Option (Str × Str) × Reader). found p.0 (read_lines ls p.1)) q

-- Of several data lines of one event the last one alone is kept, where both are trimmed and the
-- last is not empty.
pub last_data_line_wins :
    (c d : Str) (r : Reader)
    → IsTrim c
    → IsTrim d
    → is_true d ≡ true
    → read_lines (data_line c ∷ data_line d ∷ [] ∷ []) r ≡ (r.current_event, d) ∷ []
unfolding read_lines
last_data_line_wins c d r h j p =
    next_line (data_line c) (data_line d ∷ [] ∷ []) r (read-data_line c r h)
    ∙ (next_line (data_line d) ([] ∷ []) (record r { current_data = c })
          (read-data_line d (record r { current_data = c }) j)
        ∙ next_line [] [] (record r { current_data = d }) (read-blank_line r.current_event d p))
