-- ===== src/Web/Live/Flush.antt =====
-- A flush that nothing comes between.
use open_covibe_web.Common.{
  sym, subst, ◌-◌, ◌≤◌, ◌<◌, ◌∙◌, ltb, ℕ, zero, suc, ◌+◌, ◌<◌, String, str_eq, true, false, not,
  some, List, [], ◌∷◌, ◌++◌, ◌≡◌, refl, ap, arith, ◌∙◌, lookup, lookup-remove, if◌then◌else◌, max,
  leb, ltb, length, any, keep, eq_refl,
}
use open_covibe_web.Models.Json.{Json}
use open_covibe_web.Web.Live.{
  is_replaying, WsSession, BufferedEvent, taking, draining, finished, World, Advanced, quietly,
  advance, run_replay, raise, buffer_of, drop_buffer, stop_replaying, replay_buffer_capacity,
}
use open_covibe_web.Storage.Events.Lines.{append_nil}
use open_covibe_web.Web.Live.Bounds.{lookup-insert}

-- The buffered events that are new, and the highest number after them.
abbrev pub fresh : ℕ → List BufferedEvent → List Json
fresh floor [] = []
fresh floor (e ∷ es) =
    let rest = fresh floor es in if leb e.seq floor then rest else e.envelope ∷ rest

abbrev pub top : ℕ → ℕ → List BufferedEvent → ℕ
top m floor [] = m
top m floor (e ∷ es) = if leb e.seq floor then top m floor es else top (max m e.seq) floor es

abbrev before : List Json → Advanced → Advanced
before sent a = record a { sent = sent ++ a.sent }

small : (n : ℕ) → n < replay_buffer_capacity → leb replay_buffer_capacity n ≡ false
small n h = ground arith

at_zero : (n : ℕ) → max n 0 ≡ n
at_zero n = omega arith

-- A step for each event, and `n` more.
abbrev steps : List BufferedEvent → ℕ → ℕ
steps [] n = n
steps (e ∷ es) n = suc (steps es n)

steps-length : (es : List BufferedEvent) (n : ℕ) → steps es n ≡ length es + n
steps-length [] n = omega arith
steps-length (e ∷ es) n = omega (arith, steps-length es n)

drain :
    (w : World) (n : ℕ) (s : WsSession) (run : String) (m floor : ℕ) (es : List BufferedEvent)
    → w.up ≡ true
    → run_replay w (steps es n) s (draining run m floor es)
      ≡ before (fresh floor es) (run_replay w n s (draining run (top m floor es) floor []))
unfolding advance
drain w n s run m floor [] u = refl
drain w n s run m floor (e ∷ es) u =
    ground (arith, drain w n s run m floor es u, drain w n s run (max m e.seq) floor es u)

rest-finished : (w : World) (n : ℕ) (s : WsSession) → run_replay w n s finished ≡ quietly s finished
unfolding advance
rest-finished w zero s = refl
rest-finished w (suc n) s = ap (before []) (rest-finished w n s)

none_left :
    (run : String) (rs : List String) → any (str_eq run) (keep (λ r. not (str_eq run r)) rs) ≡ false
none_left run [] = refl
none_left run (r ∷ rs) = ground (arith, none_left run rs)

dropped-buffer : (run : String) (s : WsSession) → buffer_of run (drop_buffer run s) ≡ []
dropped-buffer run s = ground (arith, lookup-remove run run s.replay_buffer, eq_refl run)

raised_to :
    (run : String) (cp m : ℕ) (s : WsSession)
    → lookup run s.subscriptions ≡ some cp
    → lookup run (raise run m s).subscriptions ≡ some (max cp m)
unfolding raise
raised_to run cp m s e = rw (e, lookup-insert run run (max cp m) s.subscriptions, eq_refl run) refl

abbrev stopped : String → ℕ → WsSession → WsSession
stopped run m s =
    let u = stop_replaying run (drop_buffer run s) in if ltb 0 m then raise run m u else u

-- What is left after a batch, if no more has come.
last_steps :
    (w : World) (n : ℕ) (s : WsSession) (run : String) (m floor : ℕ)
    → buffer_of run s ≡ []
    → run_replay w (suc (suc (suc n))) s (draining run m floor [])
      ≡ quietly (stopped run m (raise run m s)) finished
unfolding advance raise
last_steps w n s run m floor e = rw (e) (
    ap (λ a. before [] (before [] (before [] a)))
      (rest-finished w n (stopped run m (raise run m s))))

-- The whole flush of a buffer that is not empty.
flush_steps :
    (w : World) (n : ℕ) (s : WsSession) (run : String) (cp : ℕ) (e : BufferedEvent)
    (es : List BufferedEvent)
    → w.up ≡ true
    → lookup run s.subscriptions ≡ some cp
    → buffer_of run s ≡ e ∷ es
    → length (e ∷ es) < replay_buffer_capacity
    → run_replay w (suc (steps (e ∷ es) (suc (suc (suc n))))) s (taking run 0)
      ≡ before (fresh cp (e ∷ es)) (
          quietly
            (stopped run (top 0 cp (e ∷ es)) (raise run (top 0 cp (e ∷ es)) (drop_buffer run s)))
            finished)
unfolding advance
flush_steps w n s run cp e es u c b h =
    let u1 = drop_buffer run s in
    let m = top 0 cp (e ∷ es) in
    rw (b, c, small (length (e ∷ es)) h, at_zero cp)
      (drain w (suc (suc (suc n))) u1 run 0 cp (e ∷ es) u
        ∙ ap (before (fresh cp (e ∷ es))) (last_steps w n u1 run m cp (dropped-buffer run s)))

empty_steps :
    (w : World) (n : ℕ) (s : WsSession) (run : String)
    → buffer_of run s ≡ []
    → run_replay w (suc n) s (taking run 0) ≡ quietly (stopped run 0 s) finished
unfolding advance
empty_steps w n s run e = rw (e) (ap (before []) (rest-finished w n (stopped run 0 s)))

-- Nothing is being replayed, nothing buffered, and the checkpoint is at `cp`.
abbrev pub Settled : String → ℕ → WsSession → Type 0
Settled run cp s =
    (is_replaying run s ≡ false) × (buffer_of run s ≡ []) × (lookup run s.subscriptions ≡ some cp)

-- The flush of `b` above the checkpoint `cp` has ended.
abbrev pub Flushed : String → ℕ → List BufferedEvent → Advanced → Type 0
Flushed run cp b out =
    (out.next ≡ finished) × (out.sent ≡ fresh cp b) × Settled run (max cp (top 0 cp b)) out.session

stopped-Settled :
    (run : String) (m cp : ℕ) (s : WsSession)
    → lookup run s.subscriptions ≡ some cp
    → Settled run (max cp m) (stopped run m s)
unfolding raise
stopped-Settled run m cp s e =
    let u = stop_replaying run (drop_buffer run s) in
    ground (arith, none_left run s.replaying, dropped-buffer run s, raised_to run cp m u e)

max_twice : (a b : ℕ) → max (max a b) b ≡ max a b
max_twice a b = omega arith

flush-Flushed :
    (w : World) (n : ℕ) (s : WsSession) (run : String) (cp : ℕ) (b : List BufferedEvent)
    → w.up ≡ true
    → lookup run s.subscriptions ≡ some cp
    → buffer_of run s ≡ b
    → length b < replay_buffer_capacity
    → Flushed run cp b (run_replay w (suc (steps b (suc (suc (suc n))))) s (taking run 0))
flush-Flushed w n s run cp [] u c e h =
    subst (Flushed run cp []) (sym (empty_steps w (suc (suc (suc n))) s run e))
      (refl, refl, stopped-Settled run 0 cp s c)
flush-Flushed w n s run cp (x ∷ xs) u c e h =
    let m = top 0 cp (x ∷ xs) in
    let k =
      stopped-Settled run m (max cp m) (raise run m (drop_buffer run s))
        (raised_to run cp m (drop_buffer run s) c) in
    subst (Flushed run cp (x ∷ xs)) (sym (flush_steps w n s run cp x xs u c e h)) (
      refl,
      append_nil (fresh cp (x ∷ xs)),
      subst (λ seq. Settled run seq (stopped run m (raise run m (drop_buffer run s))))
          (max_twice cp m) k,
    )

-- A flush of a subscribed run that nothing comes between ends, if its sends succeed and its buffer is
-- not full, within four steps more than there are events in the buffer: it has sent, in their order,
-- the buffered events whose numbers are above the checkpoint, the run is no longer being replayed,
-- nothing is buffered, and the checkpoint is the highest number sent, if it has sent any.
pub run_replay-Flushed :
    (w : World) (s : WsSession) (run : String) (cp fuel : ℕ) (b : List BufferedEvent)
    → w.up ≡ true
    → lookup run s.subscriptions ≡ some cp
    → buffer_of run s ≡ b
    → length b < replay_buffer_capacity
    → length b + 4 ≤ fuel
    → Flushed run cp b (run_replay w fuel s (taking run 0))
run_replay-Flushed w s run cp fuel b u c e h f =
    let n = fuel - (length b + 4) in
    let enough : suc (steps b (suc (suc (suc n)))) ≡ fuel =
      omega (arith, steps-length b (suc (suc (suc n)))) in
    subst (λ k. Flushed run cp b (run_replay w k s (taking run 0))) enough
      (flush-Flushed w n s run cp b u c e h)
