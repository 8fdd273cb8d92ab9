-- ===== src/Storage/Writer.antt =====
-- src-tauri/src/storage/events.rs: the EventWriter, which numbers the events of a run and appends them
-- to its file. A call is two steps, as its locks make it: under the lock of the map it gets the run's
-- counter, and under that counter's lock it takes a number and writes a line. In between, other calls
-- may come. A counter is a place of the store, which two calls for a run can share.
pub mod Prints
pub mod Retain
pub mod Contract
pub mod Numbers
pub mod Replay
use open_covibe_web.Common.{
  ℕ, zero, suc, ◌+◌, String, str_eq, Bool, true, false, ◌++◌, ◌||◌, Option, none, some, List, [],
  ◌∷◌, ◌==◌, if◌then◌else◌, ltb, length, lookup,
}
use open_covibe_web.Models.Json.{Json, bool, num, str, object}
use open_covibe_web.Storage.Events.{Serde, next_seq}

pub record EventWriter : Type 0 where
  -- Runs and the places of their counters.
  pub inner : List (String × ℕ)
  pub counters : ℕ → ℕ
  pub next_place : ℕ
  -- The calls that have a counter and have not written: run and place.
  pub holders : List (String × ℕ)
  -- The files.
  pub files : String → List ℕ

-- `EventWriter::new`, on the files that are there.
abbrev pub new : (String → List ℕ) → EventWriter
new files = record {
  inner = [];
  counters = λ place. 0;
  next_place = 0;
  holders = [];
  files = files;
}

abbrev pub is_held : List (String × ℕ) → ℕ → Bool
is_held [] place = false
is_held ((run, p) ∷ hs) place = p == place || is_held hs place

-- `map.retain(|_, v| Arc::strong_count(v) > 1)`.
abbrev pub retain : List (String × ℕ) → List (String × ℕ) → List (String × ℕ)
retain hs [] = []
retain hs ((run, place) ∷ es) =
    let rest = retain hs es in if is_held hs place then (run, place) ∷ rest else rest

abbrev pub collect : EventWriter → EventWriter
collect s = if ltb 50 (length s.inner) then record s { inner = retain s.holders s.inner } else s

abbrev pub set_at {ℓ} : {A : Type ℓ} → ℕ → A → (ℕ → A) → ℕ → A
set_at place v f other = if other == place then v else f other

abbrev pub hold : EventWriter → String → ℕ → EventWriter
hold s run place = record s { holders = (run, place) ∷ s.holders }

abbrev pub entry : Serde → EventWriter → String → Option ℕ → EventWriter
entry t s run (some place) = hold s run place
entry t s run none =
    hold
      (record s {
        inner = (run, s.next_place) ∷ s.inner;
        counters = set_at s.next_place (next_seq t (s.files run)) s.counters;
        next_place = s.next_place + 1;
      })
      run s.next_place

-- The run's counter, made from the file if there is none.
unfoldable pub get_lock : Serde → EventWriter → String → EventWriter
get_lock t s run = let c = collect s in entry t c run (lookup run c.inner)

-- What comes of a write: a line, nothing, or a part of a line.
pub data Outcome : Type 0 where
  done : Outcome
  refused : (message : String) → Outcome
  torn : (written : ℕ) → (message : String) → Outcome

pub data Written {ℓ} (A : Type ℓ) : Type ℓ where
  ok : A → Written A
  err : (message : String) → Written A

abbrev pub first : ℕ → List ℕ → List ℕ
first zero bs = []
first (suc n) [] = []
first (suc n) (b ∷ bs) = b ∷ first n bs

abbrev pub line_of : Serde → Json → List ℕ
line_of t v = t.to_string v ++ 10 ∷ []

abbrev pub appended : Serde → Json → Outcome → List ℕ
appended t v done = line_of t v
appended t v (refused m) = []
appended t v (torn n m) = first n (line_of t v)

abbrev pub is_torn : Outcome → Bool
is_torn done = false
is_torn (refused m) = false
is_torn (torn n m) = true

abbrev pub answer {ℓ} : {A : Type ℓ} → A → Outcome → Written A
answer a done = ok a
answer a (refused m) = err m
answer a (torn n m) = err m

abbrev pub set_file : String → List ℕ → (String → List ℕ) → String → List ℕ
set_file run v f other = if str_eq other run then v else f other

-- Under the lock of the counter at `place`; the number is used up even if the write fails.
unfoldable pub append : Serde → EventWriter → String → ℕ → (ℕ → Json) → Outcome → EventWriter
append t s run place content o =
    let seq = s.counters place in
    record s {
      counters = set_at place (seq + 1) s.counters;
      files = set_file run (s.files run ++ appended t (content seq) o) s.files;
    }

abbrev pub envelope : Json → String → ℕ → Json
envelope event ts seq =
    object (("_bus", bool true) ∷ ("seq", num seq) ∷ ("ts", str ts) ∷ ("event", event) ∷ [])

-- A raw run event, with the fields as serde names them.
abbrev pub run_event : String → String → String → Json → String → ℕ → Json
run_event id run kind payload timestamp seq = object (
    ("id", str id)
    ∷ ("task_id", str run)
    ∷ ("seq", num seq)
    ∷ ("type", str kind)
    ∷ ("payload", payload)
    ∷ ("timestamp", str timestamp)
    ∷ [])

-- What a call writes.
pub data Record : Type 0 where
  bus : (event : Json) → (ts : String) → Record
  raw : (id kind : String) → (payload : Json) → (timestamp : String) → Record

abbrev pub render : Record → String → ℕ → Json
render (bus event ts) run seq = envelope event ts seq
render (raw id kind payload timestamp) run seq = run_event id run kind payload timestamp seq

-- A call alone, and the number that it takes.
abbrev pub write_locked :
    Serde
    → EventWriter
    → List (String × ℕ)
    → String
    → Record
    → Outcome
    → Option ℕ
    → EventWriter × Written ℕ
write_locked t s holders run r o none = (s, err "")
write_locked t s holders run r o (some place) = (
  append t (record s { holders = holders }) run place (render r run) o,
  answer (s.counters place) o,
)

unfoldable pub write_alone :
    Serde → EventWriter → String → Record → Outcome → EventWriter × Written ℕ
write_alone t s run r o =
    let locked = get_lock t s run in
    write_locked t locked s.holders run r o (lookup run locked.inner)

abbrev pub write_bus_event_with_ts :
    Serde → EventWriter → String → Json → String → Outcome → EventWriter × Written ℕ
write_bus_event_with_ts t s run event ts o = write_alone t s run (bus event ts) o

abbrev pub map_written {ℓ} : {A : Type ℓ} → (ℕ → A) → Written ℕ → Written A
map_written f (ok seq) = ok (f seq)
map_written f (err m) = err m

abbrev pub write_bus_event :
    Serde → EventWriter → String → Json → (now : String) → Outcome → EventWriter × Written {0} Unit
write_bus_event t s run event now o =
    let out = write_alone t s run (bus event now) o in (out.0, map_written (λ seq. tt) (out.1))

abbrev pub write_run_event :
    Serde
    → EventWriter
    → (id : String) → String
    → String
    → Json
    → (now : String) → Outcome
    → EventWriter × Written Json
write_run_event t s id run kind payload now o =
    let out = write_alone t s run (raw id kind payload now) o in
    (out.0, map_written (run_event id run kind payload now) (out.1))

abbrev pub nth {ℓ} : {A : Type ℓ} → ℕ → List A → Option A
nth n [] = none
nth zero (h ∷ hs) = some h
nth (suc n) (h ∷ hs) = nth n hs

abbrev pub without {ℓ} : {A : Type ℓ} → ℕ → List A → List A
without n [] = []
without zero (h ∷ hs) = hs
without (suc n) (h ∷ hs) = h ∷ without n hs

-- A step of one of many calls.
pub data Action : Type 0 where
  acquire : (run : String) → Action
  write : (holder : ℕ) → Record → Outcome → Action

abbrev pub proceed : Serde → EventWriter → ℕ → Record → Outcome → Option (String × ℕ) → EventWriter
proceed t s n r o none = s
proceed t s n r o (some (run, place)) =
    append t (record s { holders = without n s.holders }) run place (render r run) o

abbrev pub step : Serde → EventWriter → Action → EventWriter
step t s (acquire run) = get_lock t s run
step t s (write n r o) = proceed t s n r o (nth n s.holders)

abbrev pub steps : Serde → EventWriter → List Action → EventWriter
steps t s [] = s
steps t s (a ∷ rest) = steps t (step t s a) rest
