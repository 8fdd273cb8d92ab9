-- ===== src/Storage/Writer/Numbers.antt =====
-- The numbers of the events of a run ascend, whichever calls overlap.
use open_covibe_web.Common.{
  zero, suc, ◌+◌, ◌<◌, ◌++◌, if◌then◌else◌, List, ℕ, ◌<◌, String, true, none, some, List, [], ◌∷◌,
  ◌≡◌, refl, arith, All, lookup, eq_iff, Option, eq_refl, Bool, false, suc,
}
use open_covibe_web.Storage.Events.Lines.{append_nil}
use open_covibe_web.Storage.Events.Tail.{next_seq-last}
use open_covibe_web.Models.Json.{get_u64}
use open_covibe_web.Storage.Events.{Serde, next_seq}
use open_covibe_web.Storage.Writer.{
  done, refused, torn, bus, raw, acquire, write, is_torn, appended, set_at, EventWriter, retain,
  Record, append, get_lock, entry, collect, Outcome, render, bus, raw, refused, torn, Action, nth,
  without, steps, step, proceed, new,
}
use open_covibe_web.Storage.Writer.Retain.{
  Distinct, retain-Distinct, retain-some, retain-held, All-both, all_held,
}
use open_covibe_web.Storage.Writer.Prints.{FileOk, last_seq, Prints, append-FileOk, last_seq-append}
use open_covibe_web.Storage.Writer.Prints.{Prints, last_seq-append, append-FileOk}

-- The counter is past the numbers in the file.
abbrev Fits : Serde → EventWriter → String → ℕ → Type 0
Fits t s run place = (place < s.next_place) × (last_seq t (s.files run) < s.counters place)

pub record Numbered (t : Serde) (s : EventWriter) : Type 0 where
  pub files_ok : (run : String) → FileOk t (s.files run)
  pub distinct : Distinct s.inner
  pub fits : (run : String) (place : ℕ) → lookup run s.inner ≡ some place → Fits t s run place
  pub mapped : All (λ h. lookup (h.0) s.inner ≡ some (h.1)) s.holders

collect-Numbered :
    (t : Serde) (s : EventWriter)
    → Numbered t s
    → Numbered t (record s { inner = retain s.holders s.inner })
collect-Numbered t s n = record {
  files_ok = n.files_ok;
  distinct = retain-Distinct s.holders s.inner n.distinct;
  fits = λ run place e. n.fits run place (retain-some s.holders s.inner run place n.distinct e);
  mapped =
      All-both s.holders (λ h a b. retain-held s.holders s.inner (h.0) (h.1) a b)
        (all_held s.holders) n.mapped;
}

if-Numbered :
    (c : Bool) (t : Serde) (a b : EventWriter)
    → Numbered t a
    → Numbered t b
    → Numbered t (if c then a else b)
if-Numbered true t a b n m = n
if-Numbered false t a b n m = m

-- The entry that a call makes for a run without one.
abbrev made : Serde → EventWriter → String → EventWriter
made t s run = record s {
  inner = (run, s.next_place) ∷ s.inner;
  counters = set_at s.next_place (next_seq t (s.files run)) s.counters;
  next_place = s.next_place + 1;
}

made-Fits :
    (t : Serde) (s : EventWriter) (run : String)
    → Numbered t s
    → (r : String) (place : ℕ) → lookup r (made t s run).inner ≡ some place
    → Fits t (made t s run) r place
unfolding lookup
made-Fits t s run n r place e =
    let f = n.files_ok run in
    ground (arith, next_seq-last t (s.files run) f.text f.ascending, n.fits r place, eq_iff run r)

made-mapped :
    (run : String) (place : ℕ) (es : List (String × ℕ)) (h : String × ℕ)
    → lookup run es ≡ none
    → lookup (h.0) es ≡ some (h.1)
    → lookup (h.0) ((run, place) ∷ es) ≡ some (h.1)
unfolding lookup
made-mapped run place es (r, p) e k = ground (arith, eq_iff run r)

made-own :
    (run : String) (place : ℕ) (es : List (String × ℕ))
    → lookup run ((run, place) ∷ es) ≡ some place
unfolding lookup
made-own run place es = ground (arith, eq_refl run)

entry-Numbered :
    (t : Serde) (s : EventWriter) (run : String) (o : Option ℕ)
    → lookup run s.inner ≡ o
    → Numbered t s
    → Numbered t (entry t s run o)
entry-Numbered t s run (some place) e n = record {
  files_ok = n.files_ok;
  distinct = n.distinct;
  fits = n.fits;
  mapped = (e, n.mapped);
}
entry-Numbered t s run none e n = record {
  files_ok = n.files_ok;
  distinct = (e, n.distinct);
  fits = made-Fits t s run n;
  mapped = (
    made-own run s.next_place s.inner,
    All-both s.holders (λ h a b. made-mapped run s.next_place s.inner h e a) n.mapped n.mapped,
  );
}

pub get_lock-Numbered :
    (t : Serde) (s : EventWriter) (run : String) → Numbered t s → Numbered t (get_lock t s run)
unfolding get_lock
get_lock-Numbered t s run n =
    entry-Numbered t (collect s) run (lookup run (collect s).inner) refl
      (if-Numbered _ t _ _ (collect-Numbered t s n) n)

-- The lines of the next write are not torn, and serde_json prints them.
pub record Clean (t : Serde) (r : Record) (o : Outcome) : Type 0 where
  pub prints : (run : String) (seq : ℕ) → Prints t (render r run seq)
  pub kept : is_torn o ≡ false

pub seq-render : (r : Record) (run : String) (seq : ℕ) → get_u64 "seq" (render r run seq) ≡ some seq
seq-render (bus event ts) run seq = ground arith
seq-render (raw id kind payload ts) run seq = ground arith

appended-FileOk :
    (t : Serde) (file : List ℕ) (r : Record) (run : String) (seq : ℕ) (o : Outcome)
    → Clean t r o
    → FileOk t file
    → last_seq t file < seq
    → FileOk t (file ++ appended t (render r run seq) o)
      × (last_seq t (file ++ appended t (render r run seq) o) < seq + 1)
appended-FileOk t file r run seq done c f h =
    let p = c.prints run seq in
    let e = seq-render r run seq in
    (
      append-FileOk t file (render r run seq) seq f p e h,
      omega (arith, last_seq-append t file (render r run seq) seq f.whole p e),
    )
appended-FileOk t file r run seq (refused m) c f h = rw (append_nil file) (f, omega arith)
appended-FileOk t file r run seq (torn k m) c f h = ground (arith, c.kept)

pub append-Numbered :
    (t : Serde) (s : EventWriter) (run : String) (place : ℕ) (r : Record) (o : Outcome)
    → Clean t r o
    → lookup run s.inner ≡ some place
    → Numbered t s
    → Numbered t (append t s run place (render r run) o)
unfolding append
append-Numbered t s run place r o c e n =
    let seq = s.counters place in
    let after =
      appended-FileOk t (s.files run) r run seq o c (n.files_ok run) (n.fits run place e).1 in
    record {
      files_ok = λ other. ground (arith, after.0, n.files_ok other);
      distinct = n.distinct;
      fits = λ other p k. ground (arith, after.1, n.fits other p k, eq_iff other run);
      mapped = n.mapped;
    }

pub nth-mapped :
    (es : List (String × ℕ)) (n : ℕ) (hs : List (String × ℕ)) (run : String) (place : ℕ)
    → All (λ h. lookup (h.0) es ≡ some (h.1)) hs
    → nth n hs ≡ some (run, place)
    → lookup run es ≡ some place
nth-mapped es n [] run place a e = ground arith
nth-mapped es zero ((r, p) ∷ hs) run place a e = ground (arith, a.0)
nth-mapped es (suc n) ((r, p) ∷ hs) run place a e = nth-mapped es n hs run place a.1 e

pub without-mapped :
    (es : List (String × ℕ)) (n : ℕ) (hs : List (String × ℕ))
    → All (λ h. lookup (h.0) es ≡ some (h.1)) hs
    → All (λ h. lookup (h.0) es ≡ some (h.1)) (without n hs)
without-mapped es n [] a = tt
without-mapped es zero (h ∷ hs) a = a.1
without-mapped es (suc n) (h ∷ hs) a = (a.0, without-mapped es n hs a.1)

without-Numbered :
    (t : Serde) (s : EventWriter) (n : ℕ)
    → Numbered t s
    → Numbered t (record s { holders = without n s.holders })
without-Numbered t s n m = record {
  files_ok = m.files_ok;
  distinct = m.distinct;
  fits = m.fits;
  mapped = without-mapped s.inner n s.holders m.mapped;
}

proceed-Numbered :
    (t : Serde) (s : EventWriter) (n : ℕ) (r : Record) (o : Outcome) (h : Option (String × ℕ))
    → nth n s.holders ≡ h
    → Clean t r o
    → Numbered t s
    → Numbered t (proceed t s n r o h)
proceed-Numbered t s n r o none e c m = m
proceed-Numbered t s n r o (some (run, place)) e c m =
    append-Numbered t (record s { holders = without n s.holders }) run place r o c
      (nth-mapped s.inner n s.holders run place m.mapped e) (without-Numbered t s n m)

abbrev pub CleanAction : Serde → Action → Type 0
CleanAction t (acquire run) = Unit
CleanAction t (write n r o) = Clean t r o

pub step-Numbered :
    (t : Serde) (s : EventWriter) (a : Action)
    → CleanAction t a
    → Numbered t s
    → Numbered t (step t s a)
step-Numbered t s (acquire run) c m = get_lock-Numbered t s run m
step-Numbered t s (write n r o) c m = proceed-Numbered t s n r o (nth n s.holders) refl c m

steps-kept :
    (t : Serde) (s : EventWriter) (actions : List Action)
    → All (CleanAction t) actions
    → Numbered t s
    → Numbered t (steps t s actions)
steps-kept t s [] c m = m
steps-kept t s (a ∷ rest) c m = steps-kept t (step t s a) rest c.1 (step-Numbered t s a c.0 m)

-- Whatever calls overlap, as long as no line is torn and serde_json prints what is written, the files
-- stay readable and whole, the numbers in each ascend, the counter of a run is past the numbers in its
-- file, and all calls for a run share one counter.
pub steps-Numbered :
    (t : Serde) (files : String → List ℕ) (actions : List Action)
    → ((run : String) → FileOk t (files run))
    → All (CleanAction t) actions
    → Numbered t (steps t (new files) actions)
unfolding lookup
steps-Numbered t files actions f c =
    steps-kept t (new files) actions c
      (record { files_ok = f; distinct = tt; fits = λ run place e. ground arith; mapped = tt })
