-- ===== src/Realtime/AsyncSocket/Examples.antt =====
-- src/spooled/realtime/websocket.py: `AsyncWebSocketClient` on a socket that breaks.
use spooled_sdk_python.Prelude.{true, false, Option, none, [], ◌∷◌, Str, ◌≡◌, refl, arith}
use spooled_sdk_python.Json.{Value}
use spooled_sdk_python.Errors.{raised, value_error, runtime_error}
use spooled_sdk_python.Realtime.Events.{Clock}
use spooled_sdk_python.Realtime.Sse.{connected, reconnecting}
use spooled_sdk_python.Realtime.Socket.{SocketClient}
use spooled_sdk_python.Realtime.AsyncSocket.{reading, over, broken, slept, rejected, run}
use spooled_sdk_python.Realtime.AsyncSocket.Failures.{refused_dial_ends}

abbrev no_json : Str → Option Value
no_json s = none

abbrev clock : Clock
clock = record { iso = λ s. none; of_number = λ v. none; now = 7 }

-- Ten attempts are allowed.
abbrev client : SocketClient
client = record {
  auto_reconnect = true;
  max_reconnect_attempts = 10;
  has_ws = true;
  sent = [];
  state = connected;
  reconnect_attempts = 0;
  connected_at = none;
  timer = false;
  strays = 0;
  timer_dials = 0;
  scheduling = 0;
  caller_dials = 0;
  readers = 0;
  subscriptions = [];
  stop_event = false;
  tasks = [];
}

refused_dial_ends_example :
    let d =
      run no_json clock 10
        (broken value_error 3 ∷ slept ∷ rejected runtime_error ∷ slept ∷ [])
        (record { client = client; place = reading }) in
    (d.events.place ≡ over (raised runtime_error))
    × (d.yields ≡ [])
    × (d.dials ≡ 1)
    × ((run no_json clock 10
          (broken value_error 3 ∷ slept ∷ rejected runtime_error ∷ [])
          (record { client = client; place = reading })).events.client.state
        ≡ reconnecting)
refused_dial_ends_example =
    refused_dial_ends no_json clock 10 value_error runtime_error 3 (slept ∷ []) client refl
      (omega arith)
