-- ===== src/Storage/Events/Lines.antt =====
-- The lines of a file in parts.
use open_covibe_web.Common.{
  ℕ, zero, suc, ◌≤◌, Bool, true, false, ◌&&◌, List, [], ◌∷◌, ◌++◌, ◌==◌, ◌≡◌, refl, arith, ap, ◌∙◌,
  Bool-cases, All, sym, inl, inr,
}
use open_covibe_web.Models.Json.{Json, get_u64}
use open_covibe_web.Storage.Events.{
  Serde, lines, is_newline, longer, line_value, or_nothing, values, seq_of, seqs, skip,
  after_newline, replay, replay_value,
}

pub append_assoc {ℓ} : {A : Type ℓ} → (xs ys zs : List A) → (xs ++ ys) ++ zs ≡ xs ++ (ys ++ zs)
append_assoc [] ys zs = refl
append_assoc (x ∷ xs) ys zs = ap (λ r. x ∷ r) (append_assoc xs ys zs)

pub append_nil {ℓ} : {A : Type ℓ} → (xs : List A) → xs ++ [] ≡ xs
append_nil [] = refl
append_nil (x ∷ xs) = ap (λ r. x ∷ r) (append_nil xs)

-- The part is the end of the whole.
abbrev pub Ends {ℓ} : {A : Type ℓ} → List A → List A → Type ℓ
Ends {A = A} part whole = (front : List A) × (front ++ part ≡ whole)

module _ {ℓ} {A : Type ℓ} where
  Ends-refl : (xs : List A) → Ends xs xs
  Ends-refl xs = ([], refl)

  Ends-skip : (x : A) (xs ys : List A) → Ends xs ys → Ends xs (x ∷ ys)
  Ends-skip x xs ys (front, e) = (x ∷ front, ap (λ r. x ∷ r) e)

abbrev rest {ℓ} : {A : Type ℓ} → List A → List A
rest [] = []
rest (x ∷ xs) = xs

Ends-rest : (part : List (List ℕ)) (ls : List (List ℕ)) → Ends part (rest ls) → Ends part ls
Ends-rest part [] e = e
Ends-rest part (l ∷ ls) e = Ends-skip l part ls e

rest-longer : (b : ℕ) (ls : List (List ℕ)) → rest (longer b ls) ≡ rest ls
rest-longer b [] = refl
rest-longer b (l ∷ ls) = refl

-- One byte more at the front.
Ends-lines :
    (part : List (List ℕ)) (b : ℕ) (bs : List ℕ)
    → Ends part (rest (lines bs))
    → Ends part (rest (lines (b ∷ bs)))
unfolding lines
Ends-lines part b bs e = elim (Bool-cases (b == 10)) [
  | inl h ↦ rw h (Ends-rest part (lines bs) e)
  | inr h ↦ elim (Bool-cases ((b == 13) && is_newline bs)) [
    | inl k ↦ rw (h, k) e
    | inr k ↦ rw (h, k, rest-longer b (lines bs)) e
  ]
]

lines-after_newline : (bs : List ℕ) → Ends (lines (after_newline bs)) (rest (lines bs))
unfolding lines
lines-after_newline [] = ([], refl)
lines-after_newline (b ∷ bs) = elim (Bool-cases (b == 10)) [
  | inl h ↦ rw (h) (Ends-refl (lines bs))
  | inr h ↦ elim (Bool-cases ((b == 13) && is_newline bs)) [
    | inl k ↦ rw (h, k) (lines-after_newline bs)
    | inr k ↦ rw (h, k, rest-longer b (lines bs)) (lines-after_newline bs)
  ]
]

-- The lines after the first newline that follows some bytes are the last lines of the whole.
lines-skip : (n : ℕ) (bs : List ℕ) → Ends (lines (after_newline (skip n bs))) (rest (lines bs))
unfolding lines
lines-skip zero bs = lines-after_newline bs
lines-skip (suc n) [] = ([], refl)
lines-skip (suc n) (b ∷ bs) = Ends-lines (lines (after_newline (skip n bs))) b bs (lines-skip n bs)

pub lines-tail : (n : ℕ) (bs : List ℕ) → Ends (lines (after_newline (skip n bs))) (lines bs)
lines-tail n bs = Ends-rest (lines (after_newline (skip n bs))) (lines bs) (lines-skip n bs)

-- A file that is empty or ends with a newline.
abbrev pub is_whole : List ℕ → Bool
is_whole [] = true
is_whole (b ∷ []) = b == 10
is_whole (b ∷ c ∷ bs) = is_whole (c ∷ bs)

abbrev is_cons {ℓ} : {A : Type ℓ} → List A → Bool
is_cons [] = false
is_cons (x ∷ xs) = true

lines_more : (b : ℕ) (bs : List ℕ) → is_cons (lines (b ∷ bs)) ≡ true
unfolding lines
lines_more b [] = ground arith
lines_more b (c ∷ bs) = ground (arith, lines_more c bs)

longer-append :
    (b : ℕ) (ls ks : List (List ℕ)) → is_cons ls ≡ true → longer b (ls ++ ks) ≡ longer b ls ++ ks
longer-append b [] ks h = ground arith
longer-append b (l ∷ ls) ks h = refl

pub lines-append : (f g : List ℕ) → is_whole f ≡ true → lines (f ++ g) ≡ lines f ++ lines g
unfolding lines
lines-append [] g w = refl
lines-append (b ∷ []) g w = rw w refl
lines-append (b ∷ c ∷ bs) g w =
    ground (
      arith,
      lines-append (c ∷ bs) g w,
      longer-append b (lines (c ∷ bs)) (lines g) (lines_more c bs),
    )

-- A text without control characters.
abbrev pub Printable : List ℕ → Type 0
Printable bs = All (λ b. 32 ≤ b) bs

pub lines-Printable : (l : List ℕ) → Printable l → lines (l ++ 10 ∷ []) ≡ l ∷ []
unfolding lines
lines-Printable [] p = refl
lines-Printable (b ∷ bs) p = ground (arith, lines-Printable bs p.1)

pub is_whole-append : (f l : List ℕ) → is_whole (f ++ (l ++ 10 ∷ [])) ≡ true
is_whole-append [] [] = refl
is_whole-append [] (b ∷ []) = refl
is_whole-append [] (b ∷ c ∷ l) = is_whole-append [] (c ∷ l)
is_whole-append (b ∷ []) [] = refl
is_whole-append (b ∷ []) (c ∷ l) = is_whole-append [] (c ∷ l)
is_whole-append (b ∷ c ∷ f) l = is_whole-append (c ∷ f) l

pub values-append :
    (t : Serde) (ls ks : List (List ℕ)) → values t (ls ++ ks) ≡ values t ls ++ values t ks
values-append t [] ks = refl
values-append t (l ∷ ls) ks =
    ap (λ r. or_nothing (line_value t l) ++ r) (values-append t ls ks)
    ∙ sym (append_assoc (or_nothing (line_value t l)) (values t ls) (values t ks))

pub seqs-append : (vs ws : List Json) → seqs (vs ++ ws) ≡ seqs vs ++ seqs ws
seqs-append [] ws = refl
seqs-append (v ∷ vs) ws =
    ap (λ r. seq_of (get_u64 "seq" v) ++ r) (seqs-append vs ws)
    ∙ sym (append_assoc (seq_of (get_u64 "seq" v)) (seqs vs) (seqs ws))

pub replay-append : (m : ℕ) (vs ws : List Json) → replay m (vs ++ ws) ≡ replay m vs ++ replay m ws
replay-append m [] ws = refl
replay-append m (v ∷ vs) ws =
    ap (λ r. replay_value m v ++ r) (replay-append m vs ws)
    ∙ sym (append_assoc (replay_value m v) (replay m vs) (replay m ws))
