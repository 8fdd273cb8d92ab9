-- ===== src/Storage/Writer/Replay.antt =====
-- An event that is written is read back.
use open_covibe_web.Common.{
  ℕ, ◌<◌, String, Bool, true, false, ◌&&◌, none, some, Option, List, [], ◌∷◌, ◌++◌, ◌≡◌, refl,
  arith, ap, ◌∙◌, lookup, eq_refl, if◌then◌else◌, ltb, subst,
}
use open_covibe_web.Models.Json.{Json, num, str}
use open_covibe_web.Storage.Events.{
  Serde, values, lines, list_bus_events, replay, replay_value, is_replayable, put,
}
use open_covibe_web.Storage.Events.Lines.{append_nil, replay-append}
use open_covibe_web.Storage.Writer.{
  EventWriter, done, bus, ok, append, entry, get_lock, collect, write_alone,
  write_bus_event_with_ts, envelope, line_of,
}
use open_covibe_web.Storage.Writer.Prints.{Prints, FileOk, last_seq, values-append_line}
use open_covibe_web.Storage.Writer.Numbers.{Numbered, Clean, get_lock-Numbered}

-- What the frontend gets of an event, if it asks for those after `since`.
abbrev pub shown : Json → String → ℕ → ℕ → List Json
shown event ts since seq =
    if ltb since seq && is_replayable event
    then put "_seq" (num seq) (put "ts" (str ts) event) ∷ []
    else []

replay-envelope :
    (event : Json) (ts : String) (since seq : ℕ)
    → replay since (envelope event ts seq ∷ []) ≡ shown event ts since seq
unfolding replay_value
replay-envelope event ts since seq = append_nil (shown event ts since seq)

list-append :
    (t : Serde) (file : List ℕ) (event : Json) (ts : String) (since seq : ℕ)
    → FileOk t file
    → Prints t (envelope event ts seq)
    → list_bus_events t (file ++ line_of t (envelope event ts seq)) (some since)
      ≡ list_bus_events t file (some since) ++ shown event ts since seq
unfolding list_bus_events
list-append t file event ts since seq f p =
    let v = envelope event ts seq in
    rw (p.reads file f.text, f.text, values-append_line t file v f.whole p)
      (replay-append since (values t (lines file)) (v ∷ [])
        ∙ ap (λ r. replay since (values t (lines file)) ++ r) (replay-envelope event ts since seq))

entry-own :
    (t : Serde) (s : EventWriter) (run : String) (o : Option ℕ)
    → lookup run s.inner ≡ o
    → (place : ℕ) × (lookup run (entry t s run o).inner ≡ some place)
      × ((entry t s run o).files ≡ s.files)
unfolding lookup
entry-own t s run (some place) e = (place, e, refl)
entry-own t s run none e = (s.next_place, ground (arith, eq_refl run), refl)

if-files :
    (c : Bool) (s : EventWriter) (es : List (String × ℕ))
    → (if c then record s { inner = es } else s).files ≡ s.files
if-files true s es = refl
if-files false s es = refl

get_lock-own :
    (t : Serde) (s : EventWriter) (run : String)
    → (place : ℕ) × (lookup run (get_lock t s run).inner ≡ some place)
      × ((get_lock t s run).files ≡ s.files)
unfolding get_lock
get_lock-own t s run =
    let (place, e, f) = entry-own t (collect s) run (lookup run (collect s).inner) refl in
    (place, e, f ∙ if-files _ s _)

-- An event that a call writes alone, in a sound state, gets a number above all in its run's file, and
-- the frontend, whatever number it has seen last, reads what it read before and then the event, with
-- its time and number, if the number is new to it and the type is one that it handles.
pub write_bus_event_with_ts-list :
    (t : Serde) (s : EventWriter) (run ts : String) (event : Json) (since : ℕ)
    → Numbered t s
    → Clean t (bus event ts) done
    → let out = write_bus_event_with_ts t s run event ts done in
      (seq : ℕ) × (out.1 ≡ ok seq)
      × (last_seq t (s.files run) < seq)
      × (list_bus_events t ((out.0).files run) (some since)
          ≡ list_bus_events t (s.files run) (some since) ++ shown event ts since seq)
unfolding write_alone append
write_bus_event_with_ts-list t s run ts event since n c =
    let locked = get_lock t s run in
    let m = get_lock-Numbered t s run n in
    let (place, e, f) = get_lock-own t s run in
    let seq = locked.counters place in
    let b = (m.fits run place e).1 in
    rw (e) (
      seq,
      refl,
      subst (λ g. last_seq t (g run) < seq) f b,
      ground (
        arith,
        eq_refl run,
        list-append t (s.files run) event ts since seq (n.files_ok run) (c.prints run seq),
        f,
      ),
    )
