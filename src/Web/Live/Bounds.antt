-- ===== src/Web/Live/Bounds.antt =====
-- What the steps of a connection keep.
use open_covibe_web.Common.{
  Bool-cases, inl, inr, subst, eq_iff, max, ℕ, ◌≤◌, String, str_eq, Bool, true, false, Option, none,
  some, List, [], ◌∷◌, ◌≡◌, refl, arith, All, lookup, remove, lookup-remove, length, length-append,
  unwrap_or, if◌then◌else◌,
}
use open_covibe_web.Models.Json.{Json}
use open_covibe_web.Web.Live.{
  admit_at, admit_of, envelope_of, is_replaying, WsSession, BufferedEvent, BroadcastMsg, insert,
  buffer_of, buffered, raise, raised, replay_buffer_capacity, begin_replay, admit, subscribe,
  unsubscribe, mark, catch_up,
}

-- No buffer has more events than its capacity.
abbrev pub Bounded : List (String × List BufferedEvent) → Type 0
Bounded bs = All (λ b. length (b.1) ≤ replay_buffer_capacity) bs

pub remove-Bounded :
    (run : String) (bs : List (String × List BufferedEvent)) → Bounded bs → Bounded (remove run bs)
unfolding remove
remove-Bounded run [] h = tt
remove-Bounded run ((r, b) ∷ bs) h = ground (arith, remove-Bounded run bs h.1)

lookup-Bounded :
    (run : String) (bs : List (String × List BufferedEvent))
    → Bounded bs
    → length (unwrap_or [] (lookup run bs)) ≤ replay_buffer_capacity
unfolding lookup
lookup-Bounded run [] h = omega arith
lookup-Bounded run ((r, b) ∷ bs) h = ground (arith, lookup-Bounded run bs h.1)

-- A checkpoint is kept or raised.
abbrev pub Least : Option ℕ → Option ℕ → Type 0
Least none o = Unit
Least (some c) none = ⊥
Least (some c) (some d) = c ≤ d

Least-refl : (o : Option ℕ) → Least o o
Least-refl none = tt
Least-refl (some c) = omega arith

Least-trans : (a b c : Option ℕ) → Least a b → Least b c → Least a c
Least-trans none b c h k = tt
Least-trans (some x) none c h k = elim h [ ]
Least-trans (some x) (some y) none h k = elim k [ ]
Least-trans (some x) (some y) (some z) h k = omega arith

-- What a step from one session to another keeps, the subscription of the run included.
pub record Keeps (run : String) (s u : WsSession) : Type 0 where
  pub bounded : Bounded s.replay_buffer → Bounded u.replay_buffer
  pub checkpoint : Least (lookup run s.subscriptions) (lookup run u.subscriptions)

pub Keeps-trans : (run : String) (s u v : WsSession) → Keeps run s u → Keeps run u v → Keeps run s v
Keeps-trans run s u v h k = record {
  bounded = λ b. k.bounded (h.bounded b);
  checkpoint = Least-trans _ _ _ h.checkpoint k.checkpoint;
}

pub same : (run : String) (s : WsSession) → Keeps run s s
same run s = record { bounded = λ b. b; checkpoint = Least-refl _ }

pub Keeps-if :
    (c : Bool) (run : String) (s u v : WsSession)
    → Keeps run s u
    → Keeps run s v
    → Keeps run s (if c then u else v)
Keeps-if true run s u v h k = h
Keeps-if false run s u v h k = k

pub lookup-insert {ℓ} :
    {A : Type ℓ} (key k : String) (v : A) (es : List (String × A))
    → lookup key (insert k v es) ≡ (if str_eq k key then some v else lookup key es)
unfolding lookup
lookup-insert key k v es = ground (arith, lookup-remove k key es)

insert-Least :
    (run r : String) (n : ℕ) (subs : List (String × ℕ))
    → Least (lookup r subs) (some n)
    → Least (lookup run subs) (lookup run (insert r n subs))
insert-Least run r n subs h = rw (lookup-insert run r n subs) (elim (Bool-cases (str_eq r run)) [
  | inl e ↦ rw e (subst (λ k. Least (lookup k subs) (some n)) ((eq_iff r run).0 e) h)
  | inr e ↦ rw e (Least-refl (lookup run subs))
])

raised-Least :
    (run r : String) (seq : ℕ) (subs : List (String × ℕ)) (o : Option ℕ)
    → lookup r subs ≡ o
    → Least (lookup run subs) (lookup run (raised r seq subs o))
raised-Least run r seq subs none e = Least-refl (lookup run subs)
raised-Least run r seq subs (some cp) e = insert-Least run r (max cp seq) subs (rw e (omega arith))

pub raise-Keeps : (run r : String) (seq : ℕ) (s : WsSession) → Keeps run s (raise r seq s)
unfolding raise
raise-Keeps run r seq s = record {
  bounded = λ b. b;
  checkpoint = raised-Least run r seq s.subscriptions (lookup r s.subscriptions) refl;
}

buffered-Keeps : (run r : String) (e : BufferedEvent) (s : WsSession) → Keeps run s (buffered r e s)
buffered-Keeps run r e s = record {
  bounded = λ b.
      ground (arith, remove-Bounded r s.replay_buffer b, length-append (buffer_of r s) (e ∷ []));
  checkpoint = ground (arith, Least-refl (lookup run s.subscriptions));
}

begin_replay-Keeps : (run r : String) (s : WsSession) → Keeps run s (begin_replay r s)
begin_replay-Keeps run r s = record {
  bounded = λ b. (lookup-Bounded r s.replay_buffer b, remove-Bounded r s.replay_buffer b);
  checkpoint = Least-refl _;
}

admit_at-Keeps :
    (run r : String) (seq : ℕ) (envelope : Json) (s : WsSession) (o : Option ℕ)
    → Keeps run s (admit_at s r seq envelope o).0
admit_at-Keeps run r seq envelope s none = same run s
admit_at-Keeps run r seq envelope s (some cp) =
    ground (arith, same run s, buffered-Keeps run r (record { envelope = envelope; seq = seq }) s)

admit_of-Keeps :
    (run : String) (s : WsSession) (msg : BroadcastMsg) (o : Option String) (q : Option ℕ)
    → Keeps run s (admit_of s msg o q).0
admit_of-Keeps run s msg none q = same run s
admit_of-Keeps run s msg (some r) none = same run s
admit_of-Keeps run s msg (some r) (some seq) =
    admit_at-Keeps run r seq (envelope_of msg.event_name seq r msg.payload) s
      (lookup r s.subscriptions)

pub admit-Keeps : (run : String) (s : WsSession) (msg : BroadcastMsg) → Keeps run s (admit s msg).0
unfolding admit
admit-Keeps run s msg = admit_of-Keeps run s msg msg.run_id msg.seq

from-Least : (o : Option ℕ) (n : ℕ) → Least o (some (max (unwrap_or 0 o) n))
from-Least none n = tt
from-Least (some c) n = omega arith

pub subscribe-Keeps :
    (run : String) (s : WsSession) (r : String) (n : ℕ) → Keeps run s (subscribe s r n).0
unfolding subscribe
subscribe-Keeps run s r n =
    let from = max (unwrap_or 0 (lookup r s.subscriptions)) n in
    let u = record s { subscriptions = insert r from s.subscriptions } in
    let k : Keeps run s u = record {
      bounded = λ b. b;
      checkpoint =
          insert-Least run r from s.subscriptions (from-Least (lookup r s.subscriptions) n);
    } in
    Keeps-if (is_replaying r s) run s u (begin_replay r u) k
      (Keeps-trans run s u (begin_replay r u) k (begin_replay-Keeps run r u))

pub unsubscribe-Keeps :
    (run : String) (s : WsSession) (r : String)
    → str_eq r run ≡ false
    → Keeps run s (unsubscribe s r)
unfolding unsubscribe
unsubscribe-Keeps run s r h = record {
  bounded = remove-Bounded r s.replay_buffer;
  checkpoint =
      rw (lookup-remove r run s.subscriptions, h) (Least-refl (lookup run s.subscriptions));
}

mark-Keeps : (run : String) (subs : List (String × ℕ)) (s : WsSession) → Keeps run s (mark subs s).0
mark-Keeps run [] s = same run s
mark-Keeps run ((r, q) ∷ subs) s = ground (
  arith,
  mark-Keeps run subs s,
  Keeps-trans run s (begin_replay r s) (mark subs (begin_replay r s)).0 (begin_replay-Keeps run r s)
      (mark-Keeps run subs (begin_replay r s)),
)

pub catch_up-Keeps : (run : String) (s : WsSession) → Keeps run s (catch_up s).0
unfolding catch_up
catch_up-Keeps run s = mark-Keeps run s.subscriptions s
