-- ===== src/Web/Live.antt =====
-- src-tauri/src/web_server/ws.rs: the session of a WebSocket, and what its tasks do to it between two
-- of their locks or sends. A replay is the replay of a run's events from its file, or the flush of what
-- came in meanwhile. Times are seconds.
pub mod Bounds
pub mod Steps
pub mod Flush
pub mod Tests
use open_covibe_web.Common.{
  is_some, ◌==◌, zero, suc, ℕ, ◌-◌, String, str_eq, Bool, true, false, not, ◌||◌, Option, none,
  some, List, [], ◌∷◌, ◌++◌, if◌then◌else◌, ltb, leb, max, length, any, keep, lookup, remove,
  unwrap_or,
}
use open_covibe_web.Storage.Events.{Serde, list_bus_events}
use open_covibe_web.Web.Auth.{Access, WsAuthSubject, session, query_token}
use open_covibe_web.Models.Json.{Json, num, str, object, get_u64}

abbrev pub replay_buffer_capacity : ℕ
replay_buffer_capacity = 4096

abbrev pub full_reload_cooldown_secs : ℕ
full_reload_cooldown_secs = 30

pub record BufferedEvent : Type 0 where
  pub envelope : Json
  pub seq : ℕ

pub record WsSession : Type 0 where
  -- The checkpoint of each subscribed run.
  pub subscriptions : List (String × ℕ)
  pub replay_buffer : List (String × List BufferedEvent)
  pub replaying : List String
  pub full_reload_cooldown : List (String × ℕ)

abbrev pub new_session : WsSession
new_session = record {
  subscriptions = [];
  replay_buffer = [];
  replaying = [];
  full_reload_cooldown = [];
}

abbrev pub is_replaying : String → WsSession → Bool
is_replaying run s = any (str_eq run) s.replaying

abbrev pub buffer_of : String → WsSession → List BufferedEvent
buffer_of run s = unwrap_or [] (lookup run s.replay_buffer)

abbrev pub insert {ℓ} : {A : Type ℓ} → String → A → List (String × A) → List (String × A)
insert key v es = (key, v) ∷ remove key es

abbrev pub stop_replaying : String → WsSession → WsSession
stop_replaying run s = record s { replaying = keep (λ r. not (str_eq run r)) s.replaying }

abbrev pub drop_buffer : String → WsSession → WsSession
drop_buffer run s = record s { replay_buffer = remove run s.replay_buffer }

-- `if let Some(cp) = sess.subscriptions.get_mut(run_id) { *cp = (*cp).max(seq) }`.
abbrev pub raised : String → ℕ → List (String × ℕ) → Option ℕ → List (String × ℕ)
raised run seq subs none = subs
raised run seq subs (some cp) = insert run (max cp seq) subs

unfoldable pub raise : String → ℕ → WsSession → WsSession
raise run seq s = record s {
  subscriptions = raised run seq s.subscriptions (lookup run s.subscriptions);
}

abbrev pub envelope_of : String → ℕ → String → Json → Json
envelope_of event_name seq run payload =
    object (
      ("event", str event_name)
      ∷ ("seq", num seq)
      ∷ ("run_id", str run)
      ∷ ("payload", payload)
      ∷ [])

pub record BroadcastMsg : Type 0 where
  pub event_name : String
  pub payload : Json
  pub seq : Option ℕ
  pub run_id : Option String

abbrev pub buffered : String → BufferedEvent → WsSession → WsSession
buffered run e s =
    let buffer = buffer_of run s in
    if ltb (length buffer) replay_buffer_capacity
    then record s { replay_buffer = insert run (buffer ++ e ∷ []) s.replay_buffer }
    else s

-- A message of the A channel: it is buffered, passed on or dropped. `some` is the event to send.
abbrev pub admit_at :
    WsSession → String → ℕ → Json → Option ℕ → WsSession × Option (String × BufferedEvent)
admit_at s run seq envelope none = (s, none)
admit_at s run seq envelope (some checkpoint) =
    let e : BufferedEvent = record { envelope = envelope; seq = seq } in
    if is_replaying run s
    then (buffered run e s, none)
    else if leb seq checkpoint
    then (s, none)
    else (s, some (run, e))

abbrev pub admit_of :
    WsSession
    → BroadcastMsg
    → Option String
    → Option ℕ
    → WsSession × Option (String × BufferedEvent)
admit_of s msg (some run) (some seq) =
    admit_at s run seq (envelope_of msg.event_name seq run msg.payload) (lookup run s.subscriptions)
admit_of s msg none seq = (s, none)
admit_of s msg (some run) none = (s, none)

unfoldable pub admit : WsSession → BroadcastMsg → WsSession × Option (String × BufferedEvent)
admit s msg = admit_of s msg msg.run_id msg.seq

-- A replay starts: events of the run are buffered from here on.
abbrev pub begin_replay : String → WsSession → WsSession
begin_replay run s = record s {
  replaying = run ∷ s.replaying;
  replay_buffer = insert run (buffer_of run s) s.replay_buffer;
}

-- The locked part of `_subscribe`: whether the run is replayed already, and from where to replay it.
unfoldable pub subscribe : WsSession → String → ℕ → WsSession × (Bool × ℕ)
subscribe s run last_seq =
    let from = max (unwrap_or 0 (lookup run s.subscriptions)) last_seq in
    let subscribed = record s { subscriptions = insert run from s.subscriptions } in
    let already = is_replaying run s in
    (if already then subscribed else begin_replay run subscribed, (already, from))

unfoldable pub unsubscribe : WsSession → String → WsSession
unsubscribe s run = record s {
  subscriptions = remove run s.subscriptions;
  replay_buffer = remove run s.replay_buffer;
  replaying = keep (λ r. not (str_eq run r)) s.replaying;
  full_reload_cooldown = remove run s.full_reload_cooldown;
}

-- After a lag of the A channel: all runs that are not being replayed are to be.
abbrev pub mark : List (String × ℕ) → WsSession → WsSession × List (String × ℕ)
mark [] s = (s, [])
mark ((run, seq) ∷ subs) s =
    if is_replaying run s
    then mark subs s
    else (let rest = mark subs (begin_replay run s) in (rest.0, (run, seq) ∷ rest.1))

unfoldable pub catch_up : WsSession → WsSession × List (String × ℕ)
catch_up s = mark s.subscriptions s

-- Where a replay stands, before its next lock, send or reading of the file.
pub data Replay : Type 0 where
  reading : (run : String) → (last_seq : ℕ) → Replay
  -- `replay_events`: the events to send, and the one whose number is to be noted.
  sending : (run : String) → List Json → Replay
  noting : (run : String) → ℕ → List Json → Replay
  -- `flush_replay_buffer`: the top of its loop, a batch above a floor, and the end of the batch.
  taking : (run : String) → (max_seq : ℕ) → Replay
  draining : (run : String) → (max_seq floor : ℕ) → List BufferedEvent → Replay
  settling : (run : String) → (max_seq : ℕ) → Replay
  -- A send has failed, in a replay or in a flush.
  failed : (run : String) → Replay
  broken : (run : String) → Replay
  -- `send_full_reload`: before and after the look at the cooldown.
  overflowed : (run : String) → Replay
  reloading : (run : String) → Replay
  finished : Replay

abbrev pub full_reload : String → Json
full_reload run = object (("event", str "_full_reload") ∷ ("run_id", str run) ∷ [])

-- What a step leaves: the session, the rest of the replay and what was sent.
pub record Advanced : Type 0 where
  pub session : WsSession
  pub next : Replay
  pub sent : List Json

abbrev pub quietly : WsSession → Replay → Advanced
quietly s r = record { session = s; next = r; sent = [] }

abbrev pub seq_of_event : Json → ℕ
seq_of_event event = unwrap_or 0 (get_u64 "_seq" event)

abbrev pub take_buffer : WsSession → String → ℕ → List BufferedEvent → Advanced
take_buffer s run max_seq [] =
    let stopped = stop_replaying run (drop_buffer run s) in
    quietly (if ltb 0 max_seq then raise run max_seq stopped else stopped) finished
take_buffer s run max_seq (e ∷ es) =
    let taken = drop_buffer run s in
    if leb replay_buffer_capacity (length (e ∷ es))
    then quietly (stop_replaying run taken) (overflowed run)
    else quietly taken
        (draining run max_seq (max (unwrap_or 0 (lookup run s.subscriptions)) max_seq) (e ∷ es))

abbrev pub cooling : ℕ → Option ℕ → Bool
cooling now none = false
cooling now (some last) = ltb (now - last) full_reload_cooldown_secs

-- What a step finds: the time, whether a send succeeds, and the files.
pub record World : Type 0 where
  pub now : ℕ
  pub up : Bool
  pub files : String → List ℕ
  pub serde : Serde

-- The next step of a replay.
unfoldable pub advance : World → WsSession → Replay → Advanced
advance w s (reading run last_seq) =
    quietly s (sending run (list_bus_events w.serde (w.files run) (some last_seq)))
advance w s (sending run []) = quietly s finished
advance w s (sending run (event ∷ events)) =
    let seq = seq_of_event event in
    if w.up
    then record {
      session = s;
      next = noting run seq events;
      sent = envelope_of "bus-event" seq run event ∷ [];
    }
    else quietly s (failed run)
advance w s (noting run seq events) =
    quietly (if ltb 0 seq then raise run seq s else s) (sending run events)
advance w s (taking run max_seq) = take_buffer s run max_seq (buffer_of run s)
advance w s (draining run max_seq floor []) = quietly s (settling run max_seq)
advance w s (draining run max_seq floor (e ∷ es)) =
    if leb e.seq floor
    then quietly s (draining run max_seq floor es)
    else if w.up
    then record {
      session = s;
      next = draining run (max max_seq e.seq) floor es;
      sent = e.envelope ∷ [];
    }
    else quietly s (broken run)
advance w s (settling run max_seq) = quietly (raise run max_seq s) (taking run max_seq)
advance w s (failed run) = quietly (stop_replaying run (drop_buffer run s)) finished
advance w s (broken run) = quietly (stop_replaying run s) finished
advance w s (overflowed run) =
    if cooling w.now (lookup run s.full_reload_cooldown)
    then quietly s finished
    else quietly (record s { full_reload_cooldown = insert run w.now s.full_reload_cooldown })
        (reloading run)
advance w s (reloading run) = record {
  session = s;
  next = finished;
  sent = if w.up then full_reload run ∷ [] else [];
}
advance w s finished = quietly s finished

-- Some steps of a replay that nothing comes between, and what they send, the oldest first.
abbrev pub run_replay : World → ℕ → WsSession → Replay → Advanced
run_replay w zero s r = quietly s r
run_replay w (suc n) s r =
    let a = advance w s r in
    let rest = run_replay w n a.session a.next in record rest { sent = a.sent ++ rest.sent }

-- What each of the two tasks that send events of runs is about to do.
pub data Forward : Type 0 where
  receiving : Forward
  passing : (run : String) → BufferedEvent → Forward
  passed : (run : String) → ℕ → Forward
  -- Replays of all runs to catch up with, then their flushes.
  catching : List Replay → Forward
  closed : Forward

pub data Commands : Type 0 where
  idle : Commands
  replaying : (run : String) → Replay → Commands
  flushing : Replay → Commands

pub record Connection : Type 0 where
  pub session : WsSession
  pub forward : Forward
  pub commands : Commands
  -- The events sent, the newest first; replies to commands are left out.
  pub sent : List Json

abbrev pub reads : List (String × ℕ) → List Replay
reads [] = []
reads ((run, seq) ∷ runs) = reading run seq ∷ reads runs

abbrev pub flushes : List (String × ℕ) → List Replay
flushes [] = []
flushes ((run, seq) ∷ runs) = taking run 0 ∷ flushes runs

abbrev pub is_finished : Replay → Bool
is_finished finished = true
is_finished r = false

-- A replay that fails is not cleaned up when the connection catches up: its flush comes all the same.
abbrev pub lenient : Replay → Replay
lenient (failed run) = finished
lenient r = r

abbrev pub after_replay : Replay → List Replay → List Replay
after_replay r rest = if is_finished r then rest else r ∷ rest

abbrev pub caught_up : List Replay → Forward
caught_up [] = receiving
caught_up (r ∷ rs) = catching (r ∷ rs)

abbrev pub forward_on : World → Connection → Forward → Connection
forward_on w c receiving = c
forward_on w c (passing run e) =
    if w.up
    then record c { forward = passed run e.seq; sent = e.envelope ∷ c.sent }
    else record c { forward = closed }
forward_on w c (passed run seq) = record c {
  session = raise run seq c.session;
  forward = receiving;
}
forward_on w c (catching []) = record c { forward = receiving }
forward_on w c (catching (r ∷ rest)) =
    let a = advance w c.session r in
    record c {
      session = a.session;
      forward = caught_up (after_replay (lenient a.next) rest);
      sent = a.sent ++ c.sent;
    }
forward_on w c closed = c

-- `_subscribe`, after its replay and after its flush.
abbrev pub replayed_to : String → Replay → Commands
replayed_to run finished = flushing (taking run 0)
replayed_to run (failed r) = flushing (failed r)
replayed_to run r = replaying run r

abbrev pub flushed_to : Replay → Commands
flushed_to r = if is_finished r then idle else flushing r

abbrev pub commands_on : World → Connection → Commands → Connection
commands_on w c idle = c
commands_on w c (replaying run r) =
    let a = advance w c.session r in
    record c { session = a.session; commands = replayed_to run a.next; sent = a.sent ++ c.sent }
commands_on w c (flushing r) =
    let a = advance w c.session r in
    record c { session = a.session; commands = flushed_to a.next; sent = a.sent ++ c.sent }

-- What happens to a connection next.
pub data Event : Type 0 where
  message : BroadcastMsg → Event
  lagged : Event
  forward_step : World → Event
  subscribed : (run : String) → (last_seq : ℕ) → Event
  unsubscribed : (run : String) → Event
  command_step : World → Event

abbrev pub to_pass : Option (String × BufferedEvent) → Forward
to_pass none = receiving
to_pass (some (run, e)) = passing run e

abbrev pub receive : Connection → BroadcastMsg → Forward → Connection
receive c msg receiving =
    let (s, o) = admit c.session msg in record c { session = s; forward = to_pass o }
receive c msg f = c

abbrev pub lag : Connection → Forward → Connection
lag c receiving =
    let (s, runs) = catch_up c.session in
    record c { session = s; forward = caught_up (reads runs ++ flushes runs) }
lag c f = c

abbrev pub take_subscribe : Connection → String → ℕ → Commands → Connection
take_subscribe c run last_seq idle =
    let (s, (already, from)) = subscribe c.session run last_seq in
    if str_eq run "" then c else record c {
      session = s;
      commands = if already then idle else replaying run (reading run from);
    }
take_subscribe c run last_seq busy = c

abbrev pub take_unsubscribe : Connection → String → Commands → Connection
take_unsubscribe c run idle = record c { session = unsubscribe c.session run }
take_unsubscribe c run busy = c

-- An event for a task that is busy waits, so that it changes nothing.
abbrev pub live_step : Connection → Event → Connection
live_step c (message msg) = receive c msg c.forward
live_step c lagged = lag c c.forward
live_step c (forward_step w) = forward_on w c c.forward
live_step c (subscribed run last_seq) = take_subscribe c run last_seq c.commands
live_step c (unsubscribed run) = take_unsubscribe c run c.commands
live_step c (command_step w) = commands_on w c c.commands

abbrev pub live_steps : Connection → List Event → Connection
live_steps c [] = c
live_steps c (e ∷ es) = live_steps (live_step c e) es

-- The B channel: a message of a run goes to those who are subscribed to it, any other to all.
abbrev pub is_wanted : WsSession → Option String → Bool
is_wanted s none = true
is_wanted s (some run) = is_some (lookup run s.subscriptions)

unfoldable pub forward_b : WsSession → BroadcastMsg → Option Json
forward_b s msg =
    if is_wanted s msg.run_id
    then some (object (("event", str msg.event_name) ∷ ("payload", msg.payload) ∷ []))
    else none

-- The heartbeat: a connection is closed, with a reason, or pinged.
pub data Beat : Type 0 where
  ping : Beat
  close : (reason : String) → Beat

abbrev pub has_expired : Access → ℕ → WsAuthSubject → Bool
has_expired a now query_token = false
has_expired a now (session id) = elim (lookup id a.http_sessions) [
  | none ↦ true
  | some e ↦ leb e.expires_at now
]

-- `version` is that of the token when the connection was made.
unfoldable pub heartbeat : Access → (version : ℕ) → WsAuthSubject → (now : ℕ) → Beat
heartbeat a version subject now =
    if not (a.token_version == version)
    then close "token_version_mismatch"
    else if has_expired a now subject
    then close "session_expired"
    else ping
