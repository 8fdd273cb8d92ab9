-- ===== src/Storage/Writer/Prints.antt =====
-- A line that is appended to a file.
use open_covibe_web.Common.{
  ℕ, ◌<◌, true, false, some, List, [], ◌∷◌, ◌++◌, ◌≡◌, refl, arith, ap, ◌∙◌, subst, sym,
}
use open_covibe_web.Models.Json.{Json, get_u64}
use open_covibe_web.Storage.Events.{Serde, is_blank, lines, values, seqs, seqs_in}
use open_covibe_web.Storage.Events.Lines.{
  Printable, is_whole, is_whole-append, lines-append, lines-Printable, values-append, seqs-append,
}
use open_covibe_web.Storage.Events.Tail.{Ascending, last_of}
use open_covibe_web.Storage.Writer.{line_of}

-- What serde_json does for a value: it prints it on a line that reads back as the value, and that a
-- readable file stays readable with.
pub record Prints (t : Serde) (v : Json) : Type 0 where
  pub parses : t.from_str (t.to_string v) ≡ some v
  pub printable : Printable (t.to_string v)
  pub shown : is_blank (t.to_string v) ≡ false
  pub reads : (file : List ℕ) → t.readable file ≡ true → t.readable (file ++ line_of t v) ≡ true

-- A readable file of whole lines, whose numbers ascend.
pub record FileOk (t : Serde) (file : List ℕ) : Type 0 where
  pub whole : is_whole file ≡ true
  pub text : t.readable file ≡ true
  pub ascending : Ascending 0 (seqs_in t file)

values-line : (t : Serde) (v : Json) → Prints t v → values t (t.to_string v ∷ []) ≡ v ∷ []
values-line t v p = ground (arith, p.parses, p.shown)

pub values-append_line :
    (t : Serde) (file : List ℕ) (v : Json)
    → is_whole file ≡ true
    → Prints t v
    → values t (lines (file ++ line_of t v)) ≡ values t (lines file) ++ v ∷ []
values-append_line t file v w p =
    ap (values t) (
      lines-append file (line_of t v) w
      ∙ ap (λ r. lines file ++ r) (lines-Printable (t.to_string v) p.printable))
    ∙ (values-append t (lines file) (t.to_string v ∷ [])
        ∙ ap (λ r. values t (lines file) ++ r) (values-line t v p))

seqs-line : (v : Json) (n : ℕ) → get_u64 "seq" v ≡ some n → seqs (v ∷ []) ≡ n ∷ []
seqs-line v n e = rw e refl

seqs_in-append :
    (t : Serde) (file : List ℕ) (v : Json) (n : ℕ)
    → is_whole file ≡ true
    → Prints t v
    → get_u64 "seq" v ≡ some n
    → seqs_in t (file ++ line_of t v) ≡ seqs_in t file ++ n ∷ []
seqs_in-append t file v n w p e =
    ap seqs (values-append_line t file v w p)
    ∙ (seqs-append (values t (lines file)) (v ∷ [])
        ∙ ap (λ r. seqs_in t file ++ r) (seqs-line v n e))

pub Ascending-snoc :
    (lo n : ℕ) (ns : List ℕ) → Ascending lo ns → last_of lo ns < n → Ascending lo (ns ++ n ∷ [])
Ascending-snoc lo n [] a h = (h, tt)
Ascending-snoc lo n (m ∷ ns) a h = (a.0, Ascending-snoc m n ns a.1 h)

last_of-snoc : (lo n : ℕ) (ns : List ℕ) → last_of lo (ns ++ n ∷ []) ≡ n
last_of-snoc lo n [] = refl
last_of-snoc lo n (m ∷ ns) = last_of-snoc m n ns

-- The last number in a file.
abbrev pub last_seq : Serde → List ℕ → ℕ
last_seq t file = last_of 0 (seqs_in t file)

pub last_seq-append :
    (t : Serde) (file : List ℕ) (v : Json) (n : ℕ)
    → is_whole file ≡ true
    → Prints t v
    → get_u64 "seq" v ≡ some n
    → last_seq t (file ++ line_of t v) ≡ n
last_seq-append t file v n w p e =
    ap (last_of 0) (seqs_in-append t file v n w p e) ∙ last_of-snoc 0 n (seqs_in t file)

pub append-FileOk :
    (t : Serde) (file : List ℕ) (v : Json) (n : ℕ)
    → FileOk t file
    → Prints t v
    → get_u64 "seq" v ≡ some n
    → last_seq t file < n
    → FileOk t (file ++ line_of t v)
append-FileOk t file v n f p e h = record {
  whole = is_whole-append file (t.to_string v);
  text = p.reads file f.text;
  ascending =
      subst (Ascending 0) (sym (seqs_in-append t file v n f.whole p e))
        (Ascending-snoc 0 n (seqs_in t file) f.ascending h);
}
