-- ===== src/Web/Live/Tests.antt =====
-- Examples of a connection.
use open_covibe_web.Common.{true, some, none, [], ◌∷◌, refl, arith, lookup, List}
use open_covibe_web.Models.Json.{null, str}
use open_covibe_web.Storage.Events.{Serde}
use open_covibe_web.Web.Live.{
  WsSession, new_session, BufferedEvent, BroadcastMsg, World, Connection, receiving, idle, Event,
  message, command_step, subscribed, live_steps, run_replay, taking,
}
use open_covibe_web.Web.Live.Bounds.{Bounded, Least}
use open_covibe_web.Web.Live.Steps.{live_steps-Bounded}
use open_covibe_web.Web.Live.Flush.{Flushed, run_replay-Flushed}

abbrev nothing_read : Serde
nothing_read = record { from_str = λ l. none; to_string = λ v. []; readable = λ file. true }

abbrev a_world : World
a_world = record { now = 0; up = true; files = λ run. []; serde = nothing_read }

abbrev an_open : Connection
an_open = record { session = new_session; forward = receiving; commands = idle; sent = [] }

abbrev a_message : BroadcastMsg
a_message = record { event_name = "bus-event"; payload = null; seq = some 3; run_id = some "r" }

-- A message comes while the run is being replayed, and is flushed after.
abbrev some_events : List Event
some_events =
    subscribed "r" 2
    ∷ message a_message
    ∷ command_step a_world
    ∷ command_step a_world
    ∷ command_step a_world
    ∷ command_step a_world
    ∷ []

live_steps-Bounded_example :
    Bounded (live_steps an_open some_events).session.replay_buffer
    × Least
        (lookup "r" an_open.session.subscriptions)
        (lookup "r" (live_steps an_open some_events).session.subscriptions)
live_steps-Bounded_example = live_steps-Bounded "r" an_open some_events tt tt

abbrev early : BufferedEvent
early = record { envelope = str "early"; seq = 2 }

abbrev late : BufferedEvent
late = record { envelope = str "late"; seq = 3 }

abbrev buffering : WsSession
buffering = record {
  subscriptions = ("r", 2) ∷ [];
  replay_buffer = ("r", early ∷ late ∷ []) ∷ [];
  replaying = "r" ∷ [];
  full_reload_cooldown = [];
}

run_replay-Flushed_example :
    Flushed "r" 2 (early ∷ late ∷ []) (run_replay a_world 6 buffering (taking "r" 0))
unfolding lookup
run_replay-Flushed_example =
    run_replay-Flushed a_world buffering "r" 2 6 (early ∷ late ∷ []) refl refl refl (omega arith)
      (omega arith)
