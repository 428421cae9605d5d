-- ===== src/Realtime/Events/Types.antt =====
-- src/spooled/realtime/events.py: the map of event types.
use spooled_sdk_python.Prelude.{none, some, ◌≡◌, ◌⊎◌, inl, inr, refl}
use spooled_sdk_python.Json.{str}
use spooled_sdk_python.Errors.{ok}
use spooled_sdk_python.Realtime.Events
use spooled_sdk_python.Realtime.Events.{EventType, name, look_up, server_event_map, event_type_of}

-- Every type of event that the SDK knows but `job.status_changed` is read back from its own name;
-- that one the server sends under two other names, and its own name is not in the map.
pub event_type_of-name :
    (t : EventType)
    → (event_type_of (str (name t)) ≡ ok (some t))
      ⊎ ((t ≡ Events.job_status_changed) × (event_type_of (str (name t)) ≡ ok none))
unfolding event_type_of look_up server_event_map name
event_type_of-name Events.job_status_changed = inr (refl, refl)
event_type_of-name _ = inl refl
