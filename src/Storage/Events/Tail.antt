-- ===== src/Storage/Events/Tail.antt =====
-- The number for the next event, from the end of the file.
use open_covibe_web.Common.{
  ◌+◌, ◌-◌, none, some, ◌++◌, ℕ, ◌<◌, ◌≤◌, some, List, [], ◌∷◌, ◌++◌, ◌≡◌, refl, arith, or_else,
  Option, true, length, subst, sym, ◌∙◌, ap,
}
use open_covibe_web.Storage.Events.{
  maximum, Serde, max_seq_in_tail, after, next_seq, values, seqs, seqs_in, lines, scan_max_seq,
  after_newline, skip, tail_size,
}
use open_covibe_web.Storage.Events.Lines.{Ends, lines-tail, values-append, seqs-append}

-- Each number is above those before it, the first above `lo`.
abbrev pub Ascending : ℕ → List ℕ → Type 0
Ascending lo [] = Unit
Ascending lo (n ∷ ns) = (lo < n) × Ascending n ns

-- The last number, or `lo`.
abbrev pub last_of : ℕ → List ℕ → ℕ
last_of lo [] = lo
last_of lo (n ∷ ns) = last_of n ns

pub last_above : (lo : ℕ) (ns : List ℕ) → Ascending lo ns → lo ≤ last_of lo ns
last_above lo [] a = omega arith
last_above lo (n ∷ ns) a = omega (arith, last_above n ns a.1)

-- The greatest number of an ascending list that is not empty is its last.
pub maximum-last :
    (lo n : ℕ) (ns : List ℕ) → Ascending lo (n ∷ ns) → maximum (n ∷ ns) ≡ some (last_of n ns)
maximum-last lo n [] a = refl
maximum-last lo n (m ∷ ns) a = ground (arith, maximum-last n m ns a.1, last_above m ns a.1.1)

last_of-append :
    (lo : ℕ) (xs : List ℕ) (n : ℕ) (ns : List ℕ) → last_of lo (xs ++ n ∷ ns) ≡ last_of n ns
last_of-append lo [] n ns = refl
last_of-append lo (x ∷ xs) n ns = last_of-append x xs n ns

Ascending-end : (lo : ℕ) (xs ys : List ℕ) → Ascending lo (xs ++ ys) → Ascending (last_of lo xs) ys
Ascending-end lo [] ys a = a
Ascending-end lo (x ∷ xs) ys a = Ascending-end x xs ys a.1

maximum-end :
    (lo : ℕ) (xs ys : List ℕ)
    → Ascending lo (xs ++ ys)
    → or_else (maximum ys) (maximum (xs ++ ys)) ≡ maximum (xs ++ ys)
maximum-end lo xs [] a = refl
maximum-end lo [] (n ∷ ns) a = refl
maximum-end lo (x ∷ xs) (n ∷ ns) a = ground (
  arith,
  maximum-last lo x (xs ++ n ∷ ns) a,
  last_of-append x xs n ns,
  maximum-last (last_of lo (x ∷ xs)) n ns (Ascending-end lo (x ∷ xs) (n ∷ ns) a),
)

after-maximum : (ns : List ℕ) → Ascending 0 ns → after (maximum ns) ≡ last_of 0 ns + 1
after-maximum [] a = refl
after-maximum (n ∷ ns) a = ground (arith, maximum-last 0 n ns a)

seqs_in-end :
    (t : Serde) (n : ℕ) (file : List ℕ)
    → Ends (seqs_in t (after_newline (skip n file))) (seqs_in t file)
seqs_in-end t n file =
    let (front, e) = lines-tail n file in
    let end = lines (after_newline (skip n file)) in
    (
      seqs (values t front),
      sym (seqs-append (values t front) (values t end))
          ∙ (ap seqs (sym (values-append t front end)) ∙ ap (λ ls. seqs (values t ls)) e),
    )

Ends-maximum :
    (part whole : List ℕ)
    → Ends part whole
    → Ascending 0 whole
    → or_else (maximum part) (maximum whole) ≡ maximum whole
Ends-maximum part whole (front, e) a =
    subst (λ w. or_else (maximum part) (maximum w) ≡ maximum w) e
      (maximum-end 0 front part (subst (Ascending 0) (sym e) a))

or_else-same : (o : Option ℕ) → or_else o o ≡ o
or_else-same none = refl
or_else-same (some n) = refl

max_seq_in_tail-whole :
    (t : Serde) (file : List ℕ)
    → Ascending 0 (seqs_in t file)
    → or_else (max_seq_in_tail t file) (scan_max_seq t file) ≡ scan_max_seq t file
unfolding max_seq_in_tail
max_seq_in_tail-whole t file a =
    let part = seqs_in t (after_newline (skip (length file - tail_size) file)) in
    ground (
      arith,
      Ends-maximum part (seqs_in t file) (seqs_in-end t (length file - tail_size) file) a,
      or_else-same (scan_max_seq t file),
    )

-- In a readable file whose sequence numbers ascend, the next number is one more than the last, or one,
-- although only the end of the file is read where that has a number.
pub next_seq-last :
    (t : Serde) (file : List ℕ)
    → t.readable file ≡ true
    → Ascending 0 (seqs_in t file)
    → next_seq t file ≡ last_of 0 (seqs_in t file) + 1
unfolding next_seq lines
next_seq-last t [] r a = refl
next_seq-last t (b ∷ bs) r a =
    ground (arith, max_seq_in_tail-whole t (b ∷ bs) a, after-maximum (seqs_in t (b ∷ bs)) a)
