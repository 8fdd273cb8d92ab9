-- ===== src/Storage/Writer/Retain.antt =====
-- Entries that the EventWriter keeps and drops.
use open_covibe_web.Common.{
  ℕ, String, true, none, some, List, [], ◌∷◌, ◌≡◌, refl, arith, All, lookup, eq_iff,
}
use open_covibe_web.Storage.Writer.{is_held, retain}

abbrev pub Distinct : List (String × ℕ) → Type 0
Distinct [] = Unit
Distinct ((run, place) ∷ es) = (lookup run es ≡ none) × Distinct es

retain-none :
    (hs es : List (String × ℕ)) (run : String)
    → lookup run es ≡ none
    → lookup run (retain hs es) ≡ none
unfolding lookup
retain-none hs [] run e = refl
retain-none hs ((r, p) ∷ es) run e = ground (arith, retain-none hs es run)

pub retain-Distinct : (hs es : List (String × ℕ)) → Distinct es → Distinct (retain hs es)
retain-Distinct hs [] d = tt
retain-Distinct hs ((r, p) ∷ es) d =
    ground (arith, retain-none hs es r d.0, retain-Distinct hs es d.1)

pub retain-some :
    (hs es : List (String × ℕ)) (run : String) (place : ℕ)
    → Distinct es
    → lookup run (retain hs es) ≡ some place
    → lookup run es ≡ some place
unfolding lookup
retain-some hs [] run place d e = e
retain-some hs ((r, p) ∷ es) run place d e =
    ground (arith, retain-some hs es run place d.1, retain-none hs es run, d.0, eq_iff r run)

pub retain-held :
    (hs es : List (String × ℕ)) (run : String) (place : ℕ)
    → is_held hs place ≡ true
    → lookup run es ≡ some place
    → lookup run (retain hs es) ≡ some place
unfolding lookup
retain-held hs [] run place h e = e
retain-held hs ((r, p) ∷ es) run place h e = ground (arith, retain-held hs es run place h)

pub All-both {ℓ κ μ ν} :
    {A : Type ℓ} {P : A → Type κ} {Q : A → Type μ} {R : A → Type ν} (xs : List A)
    → ((x : A) → P x → Q x → R x)
    → All P xs
    → All Q xs
    → All R xs
All-both [] f p q = tt
All-both (x ∷ xs) f (p, ps) (q, qs) = (f x p q, All-both xs f ps qs)

pub all_held : (hs : List (String × ℕ)) → All (λ h. is_held hs (h.1) ≡ true) hs
all_held [] = tt
all_held ((run, place) ∷ hs) =
    (ground arith, All-both hs (λ h a b. ground (arith, a)) (all_held hs) (all_held hs))
