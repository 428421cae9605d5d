-- ===== src/Realtime/AsyncSse/Examples.antt =====
-- src/spooled/realtime/sse.py: `AsyncSSEClient` on concrete lines.
use spooled_sdk_python.Prelude.{
  true, false, Option, none, some, List, [], ◌∷◌, Str, codes, strip, lstrip, is_space, ◌≡◌, refl,
}
use spooled_sdk_python.Json.{Value, null}
use spooled_sdk_python.Realtime.Events.{Clock}
use spooled_sdk_python.Realtime.Sse.{connected, reading, Events, run}
use spooled_sdk_python.Realtime.AsyncSse.{start, read_lines, async_run}
use spooled_sdk_python.Realtime.AsyncSse.Lines.{
  data_line, as_lines, as_frames, async_run-as_lines, last_data_line_wins,
}

abbrev loads : Str → Option Value
loads s = some null

abbrev clock : Clock
clock = record { iso = λ s. none; of_number = λ v. none; now = 7 }

abbrev stream : Events
stream = record {
  client = record {
    job_id = none;
    auto_reconnect = true;
    max_reconnect_attempts = 10;
    state = connected;
    reconnect_attempts = 0;
    closed = false;
    finished = false;
    has_stream = true;
  };
  place = reading;
}

abbrev frames : List (Str × Str)
frames = (codes "ping", codes "null") ∷ []

async_run-as_lines_example :
    async_run loads clock (as_lines frames) (record { events = stream; reader = start })
    ≡ run loads clock (as_frames frames) stream
unfolding strip lstrip is_space
async_run-as_lines_example = async_run-as_lines loads clock frames stream ((refl, refl, refl), tt)

last_data_line_wins_example :
    read_lines (data_line (codes "a") ∷ data_line (codes "b") ∷ [] ∷ []) start
    ≡ ([], codes "b") ∷ []
unfolding strip lstrip is_space
last_data_line_wins_example = last_data_line_wins (codes "a") (codes "b") start refl refl refl
