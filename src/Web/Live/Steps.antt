-- ===== src/Web/Live/Steps.antt =====
-- Any order of the steps of a connection.
use open_covibe_web.Common.{ℕ, String, str_eq, false, List, [], ◌∷◌, ◌≡◌, arith, lookup}
use open_covibe_web.Web.Live.{
  WsSession, BufferedEvent, Replay, reading, sending, noting, taking, draining, settling, failed,
  broken, overflowed, reloading, finished, World, advance, take_buffer, drop_buffer, stop_replaying,
  raise, buffer_of, Connection, Forward, receiving, passing, passed, catching, closed, Commands,
  idle, replaying, flushing, Event, message, lagged, forward_step, subscribed, unsubscribed,
  command_step, forward_on, commands_on, receive, lag, take_subscribe, take_unsubscribe, live_step,
  live_steps, BroadcastMsg,
}
use open_covibe_web.Web.Live.Bounds.{
  Bounded, Least, Keeps, remove-Bounded, same, Keeps-trans, Keeps-if, raise-Keeps, admit-Keeps,
  subscribe-Keeps, unsubscribe-Keeps, catch_up-Keeps,
}

dropped-Keeps : (run r : String) (s : WsSession) → Keeps run s (drop_buffer r s)
dropped-Keeps run r s = record {
  bounded = remove-Bounded r s.replay_buffer;
  checkpoint = (same run s).checkpoint;
}

stopped-Keeps : (run r : String) (s : WsSession) → Keeps run s (stop_replaying r s)
stopped-Keeps run r s = record { bounded = λ b. b; checkpoint = (same run s).checkpoint }

let_go-Keeps : (run r : String) (s : WsSession) → Keeps run s (stop_replaying r (drop_buffer r s))
let_go-Keeps run r s =
    Keeps-trans run s (drop_buffer r s) (stop_replaying r (drop_buffer r s)) (dropped-Keeps run r s)
      (stopped-Keeps run r (drop_buffer r s))

take_buffer-Keeps :
    (run r : String) (m : ℕ) (s : WsSession) (es : List BufferedEvent)
    → Keeps run s (take_buffer s r m es).session
take_buffer-Keeps run r m s [] =
    let u = stop_replaying r (drop_buffer r s) in
    let k = let_go-Keeps run r s in
    Keeps-if _ run s (raise r m u) u (Keeps-trans run s u (raise r m u) k (raise-Keeps run r m u)) k
take_buffer-Keeps run r m s (e ∷ es) = ground (arith, let_go-Keeps run r s, dropped-Keeps run r s)

advance-Keeps :
    (run : String) (w : World) (s : WsSession) (r : Replay) → Keeps run s (advance w s r).session
unfolding advance
advance-Keeps run w s (reading r q) = same run s
advance-Keeps run w s (sending r []) = same run s
advance-Keeps run w s (sending r (v ∷ vs)) = ground (arith, same run s)
advance-Keeps run w s (noting r q vs) =
    Keeps-if _ run s (raise r q s) s (raise-Keeps run r q s) (same run s)
advance-Keeps run w s (taking r m) = take_buffer-Keeps run r m s (buffer_of r s)
advance-Keeps run w s (draining r m f []) = same run s
advance-Keeps run w s (draining r m f (e ∷ es)) = ground (arith, same run s)
advance-Keeps run w s (settling r m) = raise-Keeps run r m s
advance-Keeps run w s (failed r) = let_go-Keeps run r s
advance-Keeps run w s (broken r) = stopped-Keeps run r s
advance-Keeps run w s (overflowed r) = ground (arith, same run s)
advance-Keeps run w s (reloading r) = same run s
advance-Keeps run w s finished = same run s

forward_on-Keeps :
    (run : String) (w : World) (c : Connection) (f : Forward)
    → Keeps run c.session (forward_on w c f).session
forward_on-Keeps run w c receiving = same run c.session
forward_on-Keeps run w c (passing r e) = ground (arith, same run c.session)
forward_on-Keeps run w c (passed r q) = raise-Keeps run r q c.session
forward_on-Keeps run w c (catching []) = same run c.session
forward_on-Keeps run w c (catching (r ∷ rs)) = advance-Keeps run w c.session r
forward_on-Keeps run w c closed = same run c.session

commands_on-Keeps :
    (run : String) (w : World) (c : Connection) (d : Commands)
    → Keeps run c.session (commands_on w c d).session
commands_on-Keeps run w c idle = same run c.session
commands_on-Keeps run w c (replaying r x) = advance-Keeps run w c.session x
commands_on-Keeps run w c (flushing x) = advance-Keeps run w c.session x

receive-Keeps :
    (run : String) (c : Connection) (msg : BroadcastMsg) (f : Forward)
    → Keeps run c.session (receive c msg f).session
receive-Keeps run c msg receiving = admit-Keeps run c.session msg
receive-Keeps run c msg (passing r e) = same run c.session
receive-Keeps run c msg (passed r q) = same run c.session
receive-Keeps run c msg (catching rs) = same run c.session
receive-Keeps run c msg closed = same run c.session

lag-Keeps : (run : String) (c : Connection) (f : Forward) → Keeps run c.session (lag c f).session
lag-Keeps run c receiving = catch_up-Keeps run c.session
lag-Keeps run c (passing r e) = same run c.session
lag-Keeps run c (passed r q) = same run c.session
lag-Keeps run c (catching rs) = same run c.session
lag-Keeps run c closed = same run c.session

take_subscribe-Keeps :
    (run : String) (c : Connection) (r : String) (n : ℕ) (d : Commands)
    → Keeps run c.session (take_subscribe c r n d).session
take_subscribe-Keeps run c r n idle =
    ground (arith, same run c.session, subscribe-Keeps run c.session r n)
take_subscribe-Keeps run c r n (replaying q x) = same run c.session
take_subscribe-Keeps run c r n (flushing x) = same run c.session

take_unsubscribe-Keeps :
    (run : String) (c : Connection) (r : String) (d : Commands)
    → str_eq r run ≡ false
    → Keeps run c.session (take_unsubscribe c r d).session
take_unsubscribe-Keeps run c r idle h = unsubscribe-Keeps run c.session r h
take_unsubscribe-Keeps run c r (replaying q x) h = same run c.session
take_unsubscribe-Keeps run c r (flushing x) h = same run c.session

-- No unsubscription from the run.
abbrev pub Stays : String → List Event → Type 0
Stays run [] = Unit
Stays run (unsubscribed r ∷ es) = (str_eq r run ≡ false) × Stays run es
Stays run (e ∷ es) = Stays run es

then_steps :
    (run : String) (s : WsSession) (c : Connection) (es : List Event)
    → Keeps run s c.session
    → Stays run es
    → Keeps run s (live_steps c es).session
then_steps run s c [] k h = k
then_steps run s c (message msg ∷ es) k h =
    then_steps run s (live_step c (message msg)) es
      (Keeps-trans run s c.session _ k (receive-Keeps run c msg c.forward)) h
then_steps run s c (lagged ∷ es) k h =
    then_steps run s (live_step c lagged) es
      (Keeps-trans run s c.session _ k (lag-Keeps run c c.forward)) h
then_steps run s c (forward_step w ∷ es) k h =
    then_steps run s (live_step c (forward_step w)) es
      (Keeps-trans run s c.session _ k (forward_on-Keeps run w c c.forward)) h
then_steps run s c (subscribed r n ∷ es) k h =
    then_steps run s (live_step c (subscribed r n)) es
      (Keeps-trans run s c.session _ k (take_subscribe-Keeps run c r n c.commands)) h
then_steps run s c (unsubscribed r ∷ es) k h =
    then_steps run s (live_step c (unsubscribed r)) es
      (Keeps-trans run s c.session _ k (take_unsubscribe-Keeps run c r c.commands h.0)) h.1
then_steps run s c (command_step w ∷ es) k h =
    then_steps run s (live_step c (command_step w)) es
      (Keeps-trans run s c.session _ k (commands_on-Keeps run w c c.commands)) h

-- In whatever order the tasks of a connection take their locks and sends, failed sends included, no
-- buffer ever has more than 4096 events, if none had at first, and the checkpoint of a run that the
-- client does not unsubscribe from never falls.
pub live_steps-Bounded :
    (run : String) (c : Connection) (es : List Event)
    → Bounded c.session.replay_buffer
    → Stays run es
    → Bounded (live_steps c es).session.replay_buffer
      × Least
          (lookup run c.session.subscriptions)
          (lookup run (live_steps c es).session.subscriptions)
live_steps-Bounded run c es b h =
    let k = then_steps run c.session c es (same run c.session) h in (k.bounded b, k.checkpoint)
