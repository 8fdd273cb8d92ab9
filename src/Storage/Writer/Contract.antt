-- ===== src/Storage/Writer/Contract.antt =====
-- src-tauri/src/storage/events.rs: the writer as its callers see it, a log for each run to which calls
-- append.
use open_covibe_web.Common.{
  ℕ, zero, suc, ◌<◌, String, str_eq, Bool, true, false, Option, none, some, List, [], ◌∷◌, ◌++◌,
  ◌≡◌, refl, arith, ap, ◌∙◌, sym, subst, if◌then◌else◌, length, length-append, map, lookup, All,
  eq_iff,
}
use open_covibe_web.Models.Json.{Json}
use open_covibe_web.Storage.Events.{Serde, lines, values, seqs}
use open_covibe_web.Storage.Events.Lines.{append_assoc, append_nil, seqs-append}
use open_covibe_web.Storage.Events.Tail.{Ascending, last_of}
use open_covibe_web.Storage.Writer.{
  Record, render, Outcome, done, refused, torn, Action, acquire, write, EventWriter, nth, without,
  appended, append, get_lock, entry, collect, proceed, step, steps, new,
}
use open_covibe_web.Storage.Writer.Prints.{FileOk, last_seq, values-append_line, Ascending-snoc}
use open_covibe_web.Storage.Writer.Numbers.{
  Numbered, Clean, CleanAction, step-Numbered, nth-mapped, seq-render, steps-Numbered,
}

-- The calls that are under way, each by its run, and the records of each run.
pub record Log : Type 0 where
  pub callers : List String
  pub records : String → List Record

abbrev pub empty : Log
empty = record { callers = []; records = λ run. [] }

abbrev pub kept : Record → Outcome → List Record → List Record
kept r done rs = rs ++ r ∷ []
kept r (refused m) rs = rs
kept r (torn n m) rs = rs

abbrev pub log_write : Log → ℕ → Record → Outcome → Option String → Log
log_write l n r o none = l
log_write l n r o (some run) = record {
  callers = without n l.callers;
  records = λ other. if str_eq other run then kept r o (l.records other) else l.records other;
}

abbrev pub log_step : Log → Action → Log
log_step l (acquire run) = record l { callers = run ∷ l.callers }
log_step l (write n r o) = log_write l n r o (nth n l.callers)

abbrev pub log_steps : Log → List Action → Log
log_steps l [] = l
log_steps l (a ∷ rest) = log_steps (log_step l a) rest

abbrev pub rendered : String → List ℕ → List Record → List Json
rendered run [] rs = []
rendered run (n ∷ ns) [] = []
rendered run (n ∷ ns) (r ∷ rs) = render r run n ∷ rendered run ns rs

-- A file that has its old values and after them the records, under numbers that ascend from the last
-- old one.
pub record Logged (t : Serde) (run : String) (old : List ℕ) (rs : List Record) (file : List ℕ)
    : Type 0 where
  pub numbers : List ℕ
  pub sized : length numbers ≡ length rs
  pub ascending : Ascending (last_seq t old) numbers
  pub values : values t (lines file) ≡ values t (lines old) ++ rendered run numbers rs

rendered-snoc :
    (run : String) (ns : List ℕ) (n : ℕ) (rs : List Record) (r : Record)
    → length ns ≡ length rs
    → rendered run (ns ++ n ∷ []) (rs ++ r ∷ []) ≡ rendered run ns rs ++ render r run n ∷ []
rendered-snoc run [] n [] r e = refl
rendered-snoc run [] n (s ∷ rs) r e = ground arith
rendered-snoc run (m ∷ ns) n [] r e = ground arith
rendered-snoc run (m ∷ ns) n (s ∷ rs) r e =
    ap (λ vs. render s run m ∷ vs) (rendered-snoc run ns n rs r (omega (arith, e)))

seqs-rendered :
    (run : String) (ns : List ℕ) (rs : List Record)
    → length ns ≡ length rs
    → seqs (rendered run ns rs) ≡ ns
seqs-rendered run [] rs e = refl
seqs-rendered run (n ∷ ns) [] e = ground arith
seqs-rendered run (n ∷ ns) (r ∷ rs) e =
    rw (seq-render r run n) (ap (λ ms. n ∷ ms) (seqs-rendered run ns rs (omega (arith, e))))

last_of-append : (lo : ℕ) (ns ms : List ℕ) → last_of lo (ns ++ ms) ≡ last_of (last_of lo ns) ms
last_of-append lo [] ms = refl
last_of-append lo (n ∷ ns) ms = last_of-append n ns ms

sized-snoc :
    (ns : List ℕ) (n : ℕ) (rs : List Record) (r : Record)
    → length ns ≡ length rs
    → length (ns ++ n ∷ []) ≡ length (rs ++ r ∷ [])
sized-snoc ns n rs r e = omega (arith, e, length-append ns (n ∷ []), length-append rs (r ∷ []))

last_seq-Logged :
    (t : Serde) (run : String) (old : List ℕ) (rs : List Record) (file : List ℕ)
    (g : Logged t run old rs file)
    → last_seq t file ≡ last_of (last_seq t old) g.numbers
last_seq-Logged t run old rs file g =
    ap (λ vs. last_of 0 (seqs vs)) g.values
    ∙ (ap (last_of 0) (seqs-append (values t (lines old)) (rendered run g.numbers rs))
        ∙ (last_of-append 0 (seqs (values t (lines old))) (seqs (rendered run g.numbers rs))
            ∙ ap (last_of (last_seq t old)) (seqs-rendered run g.numbers rs g.sized)))

appended-Logged :
    (t : Serde) (run : String) (old : List ℕ) (rs : List Record) (file : List ℕ) (r : Record)
    (seq : ℕ) (o : Outcome)
    → Clean t r o
    → FileOk t file
    → last_seq t file < seq
    → Logged t run old rs file
    → Logged t run old (kept r o rs) (file ++ appended t (render r run seq) o)
appended-Logged t run old rs file r seq done c f h g = record {
  numbers = g.numbers ++ seq ∷ [];
  sized = sized-snoc g.numbers seq rs r g.sized;
  ascending =
      Ascending-snoc (last_seq t old) seq g.numbers g.ascending
        (omega (arith, h, last_seq-Logged t run old rs file g));
  values =
      values-append_line t file (render r run seq) f.whole (c.prints run seq)
      ∙ (ap (λ vs. vs ++ render r run seq ∷ []) g.values
          ∙ (append_assoc (values t (lines old)) (rendered run g.numbers rs) (render r run seq ∷ [])
              ∙ ap (λ vs. values t (lines old) ++ vs)
                  (sym (rendered-snoc run g.numbers seq rs r g.sized))));
}
appended-Logged t run old rs file r seq (refused m) c f h g = rw (append_nil file) g
appended-Logged t run old rs file r seq (torn n m) c f h g = ground (arith, c.kept)

-- The writer has what the log has.
pub record Refines (t : Serde) (files : String → List ℕ) (s : EventWriter) (l : Log) : Type 0 where
  pub callers : map (λ h. h.0) s.holders ≡ l.callers
  pub logged : (run : String) → Logged t run (files run) (l.records run) (s.files run)

abbrev caller : Option (String × ℕ) → Option String
caller none = none
caller (some h) = some (h.0)

nth-map : (n : ℕ) (hs : List (String × ℕ)) → nth n (map (λ h. h.0) hs) ≡ caller (nth n hs)
nth-map n [] = refl
nth-map zero (h ∷ hs) = refl
nth-map (suc n) (h ∷ hs) = nth-map n hs

without-map :
    (n : ℕ) (hs : List (String × ℕ)) → map (λ h. h.0) (without n hs) ≡ without n (map (λ h. h.0) hs)
without-map n [] = refl
without-map zero (h ∷ hs) = refl
without-map (suc n) (h ∷ hs) = ap (λ rs. (h.0) ∷ rs) (without-map n hs)

collect-files :
    (s : EventWriter) → ((collect s).files ≡ s.files) × ((collect s).holders ≡ s.holders)
collect-files s = ground arith

entry-files :
    (t : Serde) (s : EventWriter) (run : String) (o : Option ℕ)
    → ((entry t s run o).files ≡ s.files)
      × (map (λ h. h.0) (entry t s run o).holders ≡ run ∷ map (λ h. h.0) s.holders)
entry-files t s run none = (refl, refl)
entry-files t s run (some place) = (refl, refl)

acquire-Refines :
    (t : Serde) (files : String → List ℕ) (s : EventWriter) (l : Log) (run : String)
    → Refines t files s l
    → Refines t files (get_lock t s run) (log_step l (acquire run))
unfolding get_lock
acquire-Refines t files s l run f =
    let c = collect-files s in
    let e = entry-files t (collect s) run (lookup run (collect s).inner) in
    record {
      callers = e.1 ∙ ap (λ hs. run ∷ map (λ h. h.0) hs) c.1 ∙ ap (λ rs. run ∷ rs) f.callers;
      logged = λ other.
          subst (λ fs. Logged t other (files other) (l.records other) (fs other)) (sym (e.0 ∙ c.0))
            (f.logged other);
    }

if-Logged :
    (b : Bool) (t : Serde) (run : String) (old : List ℕ) (rs qs : List Record) (u v : List ℕ)
    → (b ≡ true → Logged t run old rs u)
    → Logged t run old qs v
    → Logged t run old (if b then rs else qs) (if b then u else v)
if-Logged true t run old rs qs u v f g = f refl
if-Logged false t run old rs qs u v f g = g

is_run : (s t : String) → str_eq s t ≡ true → s ≡ t
is_run s t e = ground (arith, eq_iff s t)

proceed-Refines :
    (t : Serde) (files : String → List ℕ) (s : EventWriter) (l : Log) (n : ℕ) (r : Record)
    (o : Outcome) (h : Option (String × ℕ))
    → nth n s.holders ≡ h
    → Clean t r o
    → Numbered t s
    → Refines t files s l
    → Refines t files (proceed t s n r o h) (log_write l n r o (caller h))
unfolding append
proceed-Refines t files s l n r o none e c m f = f
proceed-Refines t files s l n r o (some (run, place)) e c m f =
    let k = nth-mapped s.inner n s.holders run place m.mapped e in
    record {
      callers = without-map n s.holders ∙ ap (without n) f.callers;
      logged = λ other.
          if-Logged (str_eq other run) t other (files other) _ _ _ _
            (λ q.
              subst
                (λ x.
                  Logged t x (files x) (kept r o (l.records x))
                    (s.files run ++ appended t (render r run (s.counters place)) o))
                (sym (is_run other run q))
                (appended-Logged t run (files run) (l.records run) (s.files run) r
                  (s.counters place) o c (m.files_ok run) (m.fits run place k).1 (f.logged run)))
            (f.logged other);
    }

step-Refines :
    (t : Serde) (files : String → List ℕ) (s : EventWriter) (l : Log) (a : Action)
    → CleanAction t a
    → Numbered t s
    → Refines t files s l
    → Refines t files (step t s a) (log_step l a)
step-Refines t files s l (acquire run) c m f = acquire-Refines t files s l run f
step-Refines t files s l (write n r o) c m f =
    subst (λ k. Refines t files (step t s (write n r o)) (log_write l n r o k))
      (sym (nth-map n s.holders) ∙ ap (nth n) f.callers)
      (proceed-Refines t files s l n r o (nth n s.holders) refl c m f)

steps-onward :
    (t : Serde) (files : String → List ℕ) (s : EventWriter) (l : Log) (actions : List Action)
    → All (CleanAction t) actions
    → Numbered t s
    → Refines t files s l
    → Refines t files (steps t s actions) (log_steps l actions)
steps-onward t files s l [] c m f = f
steps-onward t files s l (a ∷ rest) c m f =
    steps-onward t files (step t s a) (log_step l a) rest c.1 (step-Numbered t s a c.0 m)
      (step-Refines t files s l a c.0 m f)

-- Whatever calls overlap, as long as no line is torn and serde_json prints what is written, the
-- writer does what one log for each run does: the calls under way are the same, and each file has
-- its old values and after them the records whose writes succeeded, in the order of the writes,
-- under numbers that ascend from the last old one.
pub steps-Refines :
    (t : Serde) (files : String → List ℕ) (actions : List Action)
    → ((run : String) → FileOk t (files run))
    → All (CleanAction t) actions
    → Refines t files (steps t (new files) actions) (log_steps empty actions)
steps-Refines t files actions ok c =
    steps-onward t files (new files) empty actions c (steps-Numbered t files [] ok tt) (record {
      callers = refl;
      logged = λ run. record {
        numbers = [];
        sized = refl;
        ascending = tt;
        values = sym (append_nil (values t (lines (files run))));
      };
    })
