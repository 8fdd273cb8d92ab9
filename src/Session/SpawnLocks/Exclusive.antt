-- ===== src/Session/SpawnLocks/Exclusive.antt =====
-- src-tauri/src/agent/spawn_locks.rs: one call at a time for each run.
use open_covibe_web.Common.{
  ℕ, zero, suc, String, str_eq, false, Option, none, some, List, [], ◌∷◌, ◌++◌, ◌≡◌, refl, arith,
  lookup, All, All-append, eq_iff, eq_refl, Bool-cases, inl, inr,
}
use open_covibe_web.Storage.Writer.{is_held, retain, nth, without}
use open_covibe_web.Storage.Writer.Retain.{
  Distinct, retain-Distinct, retain-held, All-both, all_held,
}
use open_covibe_web.Storage.Writer.Numbers.{nth-mapped, without-mapped}
use open_covibe_web.Session.SpawnLocks.{
  SpawnLocks, no_locks, clone_lock, acquire, lock_if_free, lock_owned, LockAction, asks, locks,
  drops, gives_up, lock_step, lock_steps,
}

abbrev Mapped : List (String × ℕ) → List (String × ℕ) → Type 0
Mapped es hs = All (λ h. lookup (h.0) es ≡ some (h.1)) hs

-- No two calls have the lock at one place.
abbrev Apart : List (String × ℕ) → Type 0
Apart [] = Unit
Apart (h ∷ hs) = (is_held hs (h.1) ≡ false) × Apart hs

-- No two calls are for one run.
abbrev pub OnePerRun : List (String × ℕ) → Type 0
OnePerRun [] = Unit
OnePerRun (h ∷ hs) = All (λ g. str_eq (g.0) (h.0) ≡ false) hs × OnePerRun hs

record Locked (s : SpawnLocks) : Type 0 where
  pub distinct : Distinct s.inner
  pub waits : Mapped s.inner s.waiting
  pub holds : Mapped s.inner s.holding
  pub apart : Apart s.holding

module _ {A : Type 0} (P : A → Type 0) where
  All-left : (xs ys : List A) → All P (xs ++ ys) → All P xs
  All-left [] ys a = tt
  All-left (x ∷ xs) ys a = (a.0, All-left xs ys a.1)

  All-right : (xs ys : List A) → All P (xs ++ ys) → All P ys
  All-right [] ys a = a
  All-right (x ∷ xs) ys a = All-right xs ys a.1

retained :
    (s : SpawnLocks)
    → Locked s
    → Mapped (retain (s.waiting ++ s.holding) s.inner) (s.waiting ++ s.holding)
retained s l =
    let hs = s.waiting ++ s.holding in
    All-both hs (λ h a b. retain-held hs s.inner (h.0) (h.1) a b) (all_held hs)
      (All-append (λ h. lookup (h.0) s.inner ≡ some (h.1)) s.waiting s.holding l.waits l.holds)

collected-Locked :
    (s : SpawnLocks)
    → Locked s
    → Locked (record s { inner = retain (s.waiting ++ s.holding) s.inner })
collected-Locked s l = record {
  distinct = retain-Distinct (s.waiting ++ s.holding) s.inner l.distinct;
  waits = All-left _ s.waiting s.holding (retained s l);
  holds = All-right _ s.waiting s.holding (retained s l);
  apart = l.apart;
}

more-mapped :
    (run : String) (place : ℕ) (es hs : List (String × ℕ))
    → lookup run es ≡ none
    → Mapped es hs
    → Mapped ((run, place) ∷ es) hs
unfolding lookup
more-mapped run place es [] e a = tt
more-mapped run place es ((r, p) ∷ hs) e a =
    (ground (arith, e, a.0, eq_iff run r), more-mapped run place es hs e a.1)

own-lookup :
    (run : String) (place : ℕ) (es : List (String × ℕ))
    → lookup run ((run, place) ∷ es) ≡ some place
unfolding lookup
own-lookup run place es = ground (arith, eq_refl run)

clone_lock-Locked :
    (s : SpawnLocks) (run : String) (o : Option ℕ)
    → lookup run s.inner ≡ o
    → Locked s
    → Locked (clone_lock s run o)
clone_lock-Locked s run (some place) e l = record {
  distinct = l.distinct;
  waits = (e, l.waits);
  holds = l.holds;
  apart = l.apart;
}
clone_lock-Locked s run none e l = record {
  distinct = (e, l.distinct);
  waits = (
    own-lookup run s.next_place s.inner,
    more-mapped run s.next_place s.inner s.waiting e l.waits,
  );
  holds = more-mapped run s.next_place s.inner s.holding e l.holds;
  apart = l.apart;
}

acquire-Locked : (s : SpawnLocks) (run : String) → Locked s → Locked (acquire s run)
unfolding acquire
acquire-Locked s run l = clone_lock-Locked _ run _ refl (collected-Locked s l)

lock_if_free-Locked :
    (s : SpawnLocks) (n : ℕ) (o : Option (String × ℕ))
    → nth n s.waiting ≡ o
    → Locked s
    → Locked (lock_if_free s n o)
lock_if_free-Locked s n none e l = l
lock_if_free-Locked s n (some (run, place)) e l = elim (Bool-cases (is_held s.holding place)) [
  | inl h ↦ rw h l
  | inr h ↦ rw h (record {
    distinct = l.distinct;
    waits = without-mapped s.inner n s.waiting l.waits;
    holds = (nth-mapped s.inner n s.waiting run place l.waits e, l.holds);
    apart = (h, l.apart);
  })
]

without-held :
    (n : ℕ) (hs : List (String × ℕ)) (place : ℕ)
    → is_held hs place ≡ false
    → is_held (without n hs) place ≡ false
without-held n [] place h = refl
without-held zero (g ∷ hs) place h = ground (arith, h)
without-held (suc n) (g ∷ hs) place h = ground (arith, h, without-held n hs place)

without-Apart : (n : ℕ) (hs : List (String × ℕ)) → Apart hs → Apart (without n hs)
without-Apart n [] a = tt
without-Apart zero (h ∷ hs) a = a.1
without-Apart (suc n) (h ∷ hs) a = (without-held n hs (h.1) a.0, without-Apart n hs a.1)

lock_step-Locked : (s : SpawnLocks) (a : LockAction) → Locked s → Locked (lock_step s a)
unfolding lock_owned
lock_step-Locked s (asks run) l = acquire-Locked s run l
lock_step-Locked s (locks n) l = lock_if_free-Locked s n _ refl l
lock_step-Locked s (drops n) l = record {
  distinct = l.distinct;
  waits = l.waits;
  holds = without-mapped s.inner n s.holding l.holds;
  apart = without-Apart n s.holding l.apart;
}
lock_step-Locked s (gives_up n) l = record {
  distinct = l.distinct;
  waits = without-mapped s.inner n s.waiting l.waits;
  holds = l.holds;
  apart = l.apart;
}

lock_steps-Locked :
    (s : SpawnLocks) (actions : List LockAction) → Locked s → Locked (lock_steps s actions)
lock_steps-Locked s [] l = l
lock_steps-Locked s (a ∷ rest) l = lock_steps-Locked (lock_step s a) rest (lock_step-Locked s a l)

others :
    (es hs : List (String × ℕ)) (run : String) (place : ℕ)
    → lookup run es ≡ some place
    → Mapped es hs
    → is_held hs place ≡ false
    → All (λ g. str_eq (g.0) run ≡ false) hs
others es [] run place e m h = tt
others es ((r, p) ∷ hs) run place e m h =
    (ground (arith, e, m.0, h, eq_iff r run), others es hs run place e m.1 (ground (arith, h)))

one_each : (es hs : List (String × ℕ)) → Mapped es hs → Apart hs → OnePerRun hs
one_each es [] m a = tt
one_each es (h ∷ hs) m a = (others es hs (h.0) (h.1) m.0 m.1 a.0, one_each es hs m.1 a.1)

-- Whatever calls ask for the locks of runs, get them, drop them or give up, in any order, no two
-- calls have the lock of one run at the same time.
pub lock_steps-OnePerRun :
    (actions : List LockAction) → OnePerRun (lock_steps no_locks actions).holding
lock_steps-OnePerRun actions =
    let l =
      lock_steps-Locked no_locks actions
        (record { distinct = tt; waits = tt; holds = tt; apart = tt }) in
    one_each (lock_steps no_locks actions).inner (lock_steps no_locks actions).holding l.holds
      l.apart
