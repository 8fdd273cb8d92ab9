-- ===== src/Web/Emitter.antt =====
-- src-tauri/src/web_server/broadcaster.rs: what is emitted goes to the connections, and an event of a
-- run to its file first.
use open_covibe_web.Common.{ℕ, String, Option, none, some}
use open_covibe_web.Models.Json.{Json}
use open_covibe_web.Storage.Events.{Serde}
use open_covibe_web.Storage.Writer.{EventWriter, Outcome, Written, ok, err, write_bus_event_with_ts}
use open_covibe_web.Web.Live.{BroadcastMsg}

abbrev bus_message : String → Json → Written ℕ → Option BroadcastMsg
bus_message run event (ok seq) =
    some (record { event_name = "bus-event"; payload = event; seq = some seq; run_id = some run })
bus_message run event (err m) = none

-- An event that cannot be written is not broadcast. `event` is the event as JSON.
unfoldable pub persist_and_emit :
    Serde
    → EventWriter
    → String
    → Json
    → (now : String) → Outcome
    → EventWriter × Option BroadcastMsg
persist_and_emit t s run event now o =
    let (after, written) = write_bus_event_with_ts t s run event now o in
    (after, bus_message run event written)

-- A realtime message is not written and has no number.
abbrev pub emit_realtime : String → Json → Option String → BroadcastMsg
emit_realtime event_name payload run_id = record {
  event_name = event_name;
  payload = payload;
  seq = none;
  run_id = run_id;
}
