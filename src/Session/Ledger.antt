-- ===== src/Session/Ledger.antt =====
-- What callers are owed, and which Ralph loops are open, by the log.
use open_covibe_web.Common.{
  refl, ℕ, ◌+◌, List, [], ◌∷◌, ◌++◌, Option, none, some, ◌≡◌, arith, ◌==◌, if◌then◌else◌,
}
use open_covibe_web.Models.{BusEvent, ralph_started, ralph_complete}
use open_covibe_web.Session.Turn.{UserTurnTicket}
use open_covibe_web.Session.Ralph.{RalphLoopState}
use open_covibe_web.Session.Actor.{Effect, emitted, replied, cancel_replied, SessionActor}
use open_covibe_web.Session.Frame.{Frame, ledger}

abbrev pub hit : ℕ → ℕ → ℕ
hit r channel = if channel == r then 1 else 0

-- How often the channel `r` was answered.
abbrev pub answers : ℕ → List Effect → ℕ
answers r [] = 0
answers r (replied channel x ∷ log) = hit r channel + answers r log
answers r (cancel_replied channel i b ∷ log) = hit r channel + answers r log
answers r (e ∷ log) = answers r log

-- How many queued tickets are to be answered there.
abbrev pub queued : ℕ → List UserTurnTicket → ℕ
queued r [] = 0
queued r (t ∷ ts) = hit r t.reply + queued r ts

pub owed : ℕ → SessionActor → ℕ
owed r a = answers r (ledger a.log) + queued r a.queued_user

abbrev started : BusEvent → ℕ
started (ralph_started p n c s) = 1
started _ = 0

abbrev completed : BusEvent → ℕ
completed (ralph_complete r i) = 1
completed _ = 0

abbrev pub starts : List Effect → ℕ
starts [] = 0
starts (emitted ev ∷ log) = started ev + starts log
starts (e ∷ log) = starts log

abbrev pub completes : List Effect → ℕ
completes [] = 0
completes (emitted ev ∷ log) = completed ev + completes log
completes (e ∷ log) = completes log

abbrev pub alive : Option RalphLoopState → ℕ
alive none = 0
alive (some r) = 1

-- Between two states no reply is lost or made twice, and no loop begins or ends unseen.
pub record Conserves (r : ℕ) (a b : SessionActor) : Type 0 where
  pub owed :
      answers r (ledger b.log) + queued r b.queued_user
      ≡ answers r (ledger a.log) + queued r a.queued_user
  pub loops :
      starts (ledger b.log) + completes (ledger a.log) + alive a.ralph_loop
      ≡ starts (ledger a.log) + completes (ledger b.log) + alive b.ralph_loop

pub Conserves-refl : (r : ℕ) (a : SessionActor) → Conserves r a a
Conserves-refl r a = omega arith

pub Conserves-trans :
    (r : ℕ) (a b c : SessionActor) → Conserves r a b → Conserves r b c → Conserves r a c
Conserves-trans r a b c h k = omega arith

pub Frame-Conserves : (r : ℕ) (a b : SessionActor) → Frame a b → Conserves r a b
Frame-Conserves r a b f = ground arith

pub queued-append :
    (r : ℕ) (ts : List UserTurnTicket) (t : UserTurnTicket)
    → queued r (ts ++ t ∷ []) ≡ queued r ts + hit r t.reply
queued-append r [] t = omega arith
queued-append r (u ∷ ts) t = omega (arith, queued-append r ts t)

-- The ledger holds every entry that is counted.
pub answers-ledger : (r : ℕ) (log : List Effect) → answers r (ledger log) ≡ answers r log
answers-ledger r [] = refl
answers-ledger r (e ∷ log) = ground (arith, answers-ledger r log)

pub starts-ledger : (log : List Effect) → starts (ledger log) ≡ starts log
starts-ledger [] = refl
starts-ledger (e ∷ log) = ground (arith, starts-ledger log)

pub completes-ledger : (log : List Effect) → completes (ledger log) ≡ completes log
completes-ledger [] = refl
completes-ledger (e ∷ log) = ground (arith, completes-ledger log)
