-- ===== src/Storage/Tests.antt =====
-- Examples on the file of a run, with one event, which is printed as ones.
use open_covibe_web.Common.{
  ℕ, zero, suc, ◌+◌, ◌<◌, String, none, some, unwrap_or, List, [], ◌∷◌, ◌++◌, ◌≡◌, refl, ap, true,
  false, arith, length, Option,
}
use open_covibe_web.Models.Json.{Json, str, object, get_u64}
use open_covibe_web.Storage.Events.{Serde, next_seq, seqs_in, is_blank, list_bus_events, lines}
use open_covibe_web.Storage.Events.Lines.{Printable}
use open_covibe_web.Storage.Events.Tail.{last_of, next_seq-last}
use open_covibe_web.Storage.Writer.{
  bus, done, refused, ok, acquire, write, steps, new, envelope, write_bus_event_with_ts, Action,
}
use open_covibe_web.Storage.Writer.Prints.{Prints, FileOk, last_seq}
use open_covibe_web.Storage.Writer.Numbers.{Numbered, Clean, steps-Numbered}
use open_covibe_web.Storage.Writer.Contract.{Refines, log_steps, empty, steps-Refines}
use open_covibe_web.Storage.Writer.Replay.{shown, write_bus_event_with_ts-list}

abbrev an_event : Json
an_event = object (("type", str "user_message") ∷ [])

abbrev ones : ℕ → List ℕ
ones zero = []
ones (suc n) = 49 ∷ ones n

abbrev numbered : List ℕ → Option Json
numbered (a ∷ b ∷ c ∷ bs) = some (envelope an_event "now" (length bs))
numbered bs = none

abbrev a_serde : Serde
a_serde = record {
  from_str = numbered;
  to_string = λ v. 49 ∷ 49 ∷ 49 ∷ ones (unwrap_or 0 (get_u64 "seq" v));
  readable = λ file. true;
}

length-ones : (n : ℕ) → length (ones n) ≡ n
length-ones zero = refl
length-ones (suc n) = ap suc (length-ones n)

ones-Printable : (n : ℕ) → Printable (ones n)
ones-Printable zero = tt
ones-Printable (suc n) = (omega arith, ones-Printable n)

shown_ones : (n : ℕ) → is_blank (49 ∷ 49 ∷ 49 ∷ ones n) ≡ false
unfolding is_blank
shown_ones n = refl

an_event-Prints : (seq : ℕ) → Prints a_serde (envelope an_event "now" seq)
an_event-Prints seq = record {
  parses = ap (λ n. some (envelope an_event "now" n)) (length-ones seq);
  printable = (omega arith, (omega arith, (omega arith, ones-Printable seq)));
  shown = shown_ones seq;
  reads = λ file h. refl;
}

an_event-Clean : Clean a_serde (bus an_event "now") done
an_event-Clean = record { prints = λ run seq. an_event-Prints seq; kept = refl }

refused-Clean : Clean a_serde (bus an_event "now") (refused "full")
refused-Clean = record { prints = λ run seq. an_event-Prints seq; kept = refl }

abbrev no_files : String → List ℕ
no_files run = []

no_files-FileOk : (run : String) → FileOk a_serde (no_files run)
unfolding lines
no_files-FileOk run = record { whole = refl; text = refl; ascending = tt }

-- Two calls that share a counter, and write in the other order.
abbrev overlapping : List Action
overlapping =
    acquire "r"
    ∷ acquire "r"
    ∷ write 1 (bus an_event "now") done
    ∷ write 0 (bus an_event "now") (refused "full")
    ∷ acquire "r"
    ∷ write 0 (bus an_event "now") done
    ∷ []

steps-Numbered_example : Numbered a_serde (steps a_serde (new no_files) overlapping)
steps-Numbered_example =
    steps-Numbered a_serde no_files overlapping no_files-FileOk
      (tt, (tt, (an_event-Clean, (refused-Clean, (tt, (an_event-Clean, tt))))))

steps-Refines_example :
    Refines a_serde no_files
      (steps a_serde (new no_files) overlapping)
      (log_steps empty overlapping)
steps-Refines_example =
    steps-Refines a_serde no_files overlapping no_files-FileOk
      (tt, (tt, (an_event-Clean, (refused-Clean, (tt, (an_event-Clean, tt))))))

fresh : Numbered a_serde (new no_files)
fresh = steps-Numbered a_serde no_files [] no_files-FileOk tt

write_bus_event_with_ts-list_example :
    let out = write_bus_event_with_ts a_serde (new no_files) "r" an_event "now" done in
    (seq : ℕ) × (out.1 ≡ ok seq)
    × (last_seq a_serde (no_files "r") < seq)
    × (list_bus_events a_serde ((out.0).files "r") (some 0)
        ≡ list_bus_events a_serde (no_files "r") (some 0) ++ shown an_event "now" 0 seq)
write_bus_event_with_ts-list_example =
    write_bus_event_with_ts-list a_serde (new no_files) "r" "now" an_event 0 fresh an_event-Clean

-- Three events, of which the second is no JSON.
abbrev a_file : List ℕ
a_file = 49 ∷ 49 ∷ 49 ∷ 49 ∷ 10 ∷ 49 ∷ 10 ∷ 49 ∷ 49 ∷ 49 ∷ 49 ∷ 49 ∷ 49 ∷ 10 ∷ []

next_seq-last_example : next_seq a_serde a_file ≡ last_of 0 (seqs_in a_serde a_file) + 1
unfolding lines is_blank
next_seq-last_example = next_seq-last a_serde a_file refl (ground arith)
