-- ===== src/Storage/Index/Rebuild.antt =====
-- src-tauri/src/storage/run_index.rs: an update of the index against a scan of all runs.
use open_covibe_web.Common.{
  unwrap_or, String, str_eq, true, false, Option, none, some, List, [], ◌∷◌, ◌≡◌, refl, arith, ap,
  ◌∙◌, sym, lookup, lookup-remove, eq_refl, All, map, eq_iff, Bool-cases, inl, inr, subst,
}
use open_covibe_web.Storage.Writer.Retain.{All-both}
use open_covibe_web.Storage.Index.{Reader, RunIndexEntry, scan_run}
use open_covibe_web.Storage.Index.Update.{
  Fingerprint, same, Listed, scan, Manifest, reusable, visit, by_run, update,
}

-- The runs have different ids, as the directories of one directory do.
abbrev pub Distinct : List Listed → Type 0
Distinct [] = Unit
Distinct (d ∷ ds) = All (λ c. str_eq d.run_id c.run_id ≡ false) ds × Distinct ds

flipped : (a b : String) → str_eq a b ≡ false → str_eq b a ≡ false
flipped a b h = ground (arith, eq_iff a b, eq_iff b a)

is_run : (s t : String) → str_eq s t ≡ true → s ≡ t
is_run s t e = ground (arith, eq_iff s t)

some_inj {ℓ} : {A : Type ℓ} (x y : A) → some x ≡ some y → x ≡ y
some_inj x y e = ap (unwrap_or x) e

same-is : (f g : Fingerprint) → same f g ≡ true → g ≡ f
same-is f g h = ground arith

reused :
    (now before : Option Fingerprint) (o : Option RunIndexEntry) (e : RunIndexEntry)
    → reusable now before o ≡ some e
    → (before ≡ now) × (o ≡ some e)
reused (some f) (some g) (some c) e h = ground (arith, same-is f g)
reused (some f) (some g) none e h = ground arith
reused (some f) none o e h = ground arith
reused none before o e h = ground arith

-- A fingerprint of a run stands for what is scanned under it.
pub record Known (r : Reader) (content : String → Fingerprint → RunIndexEntry) (d : Listed)
    : Type 0 where
  pub print : Fingerprint
  pub read : d.fingerprint ≡ some print
  pub scanned : scan r d ≡ content d.run_id print

-- Each entry is what its fingerprint stands for.
abbrev pub Stored :
    (String → Fingerprint → RunIndexEntry) → List (String × RunIndexEntry) → Manifest → Type 0
Stored content old m =
    (id : String) (f : Fingerprint) (e : RunIndexEntry)
    → lookup id m ≡ some f
    → lookup id old ≡ some e
    → e ≡ content id f

module _ (r : Reader) (content : String → Fingerprint → RunIndexEntry) where
  -- An entry that is used again is the one that a scan makes.
  pub Ready : List (String × RunIndexEntry) → Manifest → Listed → Type 0
  Ready old m d =
      (e : RunIndexEntry)
      → reusable d.fingerprint (lookup d.run_id m) (lookup d.run_id old) ≡ some e
      → e ≡ scan r d

  pub Ready-Stored :
      (old : List (String × RunIndexEntry)) (m : Manifest) (d : Listed)
      → Stored content old m
      → Known r content d
      → Ready old m d
  unfolding Ready
  Ready-Stored old m d s k e h =
      let u = reused d.fingerprint (lookup d.run_id m) (lookup d.run_id old) e h in
      s d.run_id k.print e (u.0 ∙ k.read) u.1 ∙ sym k.scanned

  visit-entry :
      (old : List (String × RunIndexEntry)) (m : Manifest) (d : Listed) (o : Option RunIndexEntry)
      → ((e : RunIndexEntry) → o ≡ some e → e ≡ scan r d)
      → (visit r old m d o).0 ≡ scan r d
  visit-entry old m d none h = refl
  visit-entry old m d (some e) h = h e refl

  -- What a visit says of the other runs.
  visit-others :
      (old : List (String × RunIndexEntry)) (m : Manifest) (d : Listed) (o : Option RunIndexEntry)
      (id : String)
      → str_eq d.run_id id ≡ false
      → (lookup id (visit r old m d o).1 ≡ lookup id old)
        × (lookup id (visit r old m d o).2 ≡ lookup id m)
  unfolding lookup
  visit-others old m d o id h =
      ground (arith, lookup-remove d.run_id id old, lookup-remove d.run_id id m)

  visit-print :
      (old : List (String × RunIndexEntry)) (m : Manifest) (d : Listed) (o : Option RunIndexEntry)
      → reusable d.fingerprint (lookup d.run_id m) (lookup d.run_id old) ≡ o
      → Known r content d
      → lookup d.run_id (visit r old m d o).2 ≡ d.fingerprint
  unfolding lookup
  visit-print old m d none h k = ground (arith, k.read, eq_refl d.run_id)
  visit-print old m d (some e) h k =
      (reused d.fingerprint (lookup d.run_id m) (lookup d.run_id old) e h).0

  Ready-others :
      (old : List (String × RunIndexEntry)) (m : Manifest) (d c : Listed) (o : Option RunIndexEntry)
      → str_eq d.run_id c.run_id ≡ false
      → Ready old m c
      → Ready (visit r old m d o).1 (visit r old m d o).2 c
  unfolding Ready
  Ready-others old m d c o h g e k =
      let v = visit-others old m d o c.run_id h in
      g e (
        ap (reusable c.fingerprint (lookup c.run_id m)) (sym v.0)
        ∙ (ap (λ b. reusable c.fingerprint b (lookup c.run_id (visit r old m d o).1)) (sym v.1)
            ∙ k))

  Ready-rest :
      (old : List (String × RunIndexEntry)) (m : Manifest) (d : Listed) (o : Option RunIndexEntry)
      (ds : List Listed)
      → All (λ c. str_eq d.run_id c.run_id ≡ false) ds
      → All (Ready old m) ds
      → All (Ready (visit r old m d o).1 (visit r old m d o).2) ds
  Ready-rest old m d o ds h g = All-both ds (λ c. Ready-others old m d c o) h g

  head-entry :
      (old : List (String × RunIndexEntry)) (m : Manifest) (d : Listed)
      → Ready old m d
      → let o = reusable d.fingerprint (lookup d.run_id m) (lookup d.run_id old) in
        (visit r old m d o).0 ≡ scan r d
  unfolding Ready
  head-entry old m d g = visit-entry old m d _ g

  pub update-scans :
      (old : List (String × RunIndexEntry)) (m : Manifest) (ds : List Listed)
      → Distinct ds
      → All (Ready old m) ds
      → (update r old m ds).0 ≡ map (scan r) ds
  unfolding update
  update-scans old m [] k g = refl
  update-scans old m (d ∷ ds) k g =
      let o = reusable d.fingerprint (lookup d.run_id m) (lookup d.run_id old) in
      let one = visit r old m d o in
      ap (λ e. e ∷ (update r (one.1) (one.2) ds).0) (head-entry old m d g.0)
      ∙ ap (λ es. scan r d ∷ es)
          (update-scans (one.1) (one.2) ds k.1 (Ready-rest old m d o ds k.0 g.1))

  update-others :
      (old : List (String × RunIndexEntry)) (m : Manifest) (ds : List Listed) (id : String)
      → All (λ c. str_eq id c.run_id ≡ false) ds
      → lookup id (update r old m ds).1 ≡ lookup id m
  unfolding update
  update-others old m [] id h = refl
  update-others old m (d ∷ ds) id h =
      let o = reusable d.fingerprint (lookup d.run_id m) (lookup d.run_id old) in
      let one = visit r old m d o in
      update-others (one.1) (one.2) ds id h.1
      ∙ (visit-others old m d o id (flipped id d.run_id h.0)).1

  scan-run_id : (d : Listed) → (scan r d).run_id ≡ d.run_id
  unfolding scan_run
  scan-run_id d = refl

  by_run-others :
      (ds : List Listed) (id : String)
      → All (λ c. str_eq id c.run_id ≡ false) ds
      → lookup id (by_run (map (scan r) ds)) ≡ none
  unfolding lookup
  by_run-others [] id h = refl
  by_run-others (d ∷ ds) id h =
      ground (arith, scan-run_id d, by_run-others ds id h.1, flipped id d.run_id h.0)

  by_run-head :
      (d : Listed) (ds : List Listed)
      → All (λ c. str_eq d.run_id c.run_id ≡ false) ds
      → lookup d.run_id (by_run (map (scan r) (d ∷ ds))) ≡ some (scan r d)
  unfolding lookup
  by_run-head d ds h = ground (arith, scan-run_id d, by_run-others ds d.run_id h, eq_refl d.run_id)

  by_run-later :
      (d : Listed) (ds : List Listed) (id : String)
      → str_eq d.run_id id ≡ false
      → lookup id (by_run (map (scan r) (d ∷ ds))) ≡ lookup id (by_run (map (scan r) ds))
  unfolding lookup
  by_run-later d ds id h = ground (arith, scan-run_id d)

  head-content :
      (old : List (String × RunIndexEntry)) (m : Manifest) (d : Listed) (ds : List Listed)
      (f : Fingerprint) (e : RunIndexEntry)
      → Distinct (d ∷ ds)
      → Known r content d
      → lookup d.run_id (update r old m (d ∷ ds)).1 ≡ some f
      → lookup d.run_id (by_run (map (scan r) (d ∷ ds))) ≡ some e
      → e ≡ content d.run_id f
  unfolding update
  head-content old m d ds f e k g a b =
      let o = reusable d.fingerprint (lookup d.run_id m) (lookup d.run_id old) in
      let one = visit r old m d o in
      let print = some_inj _ _ (
        sym g.read
        ∙ (sym (visit-print old m d o refl g)
            ∙ (sym (update-others (one.1) (one.2) ds d.run_id k.0) ∙ a))) in
      some_inj _ _ (sym b ∙ by_run-head d ds k.0) ∙ (g.scanned ∙ ap (content d.run_id) print)

  pub update-Stored :
      (old : List (String × RunIndexEntry)) (m : Manifest) (ds : List Listed)
      → Distinct ds
      → All (Known r content) ds
      → Stored content (by_run (map (scan r) ds)) (update r old m ds).1
  unfolding update lookup
  update-Stored old m [] k g id f e a b = ground arith
  update-Stored old m (d ∷ ds) k g id f e a b =
      let o = reusable d.fingerprint (lookup d.run_id m) (lookup d.run_id old) in
      let one = visit r old m d o in
      elim (Bool-cases (str_eq d.run_id id)) [
        | inl h ↦
            subst
              (λ i.
                lookup i (update r old m (d ∷ ds)).1 ≡ some f
                → lookup i (by_run (map (scan r) (d ∷ ds))) ≡ some e
                → e ≡ content i f)
              (is_run d.run_id id h) (head-content old m d ds f e k g.0) a b
        | inr h ↦
            update-Stored (one.1) (one.2) ds k.1 g.1 id f e a (sym (by_run-later d ds id h) ∙ b)
      ]
