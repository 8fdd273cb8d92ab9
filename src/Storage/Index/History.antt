-- ===== src/Storage/Index/History.antt =====
-- src-tauri/src/storage/run_index.rs: the index after any updates.
use open_covibe_web.Common.{
  ℕ, String, Bool, true, false, Option, none, some, List, [], ◌∷◌, ◌≡◌, arith, ap, ◌∙◌, sym, subst,
  lookup, eq_iff, All, map, if◌then◌else◌,
}
use open_covibe_web.Storage.Writer.Retain.{All-both}
use open_covibe_web.Storage.Index.{Reader, RunIndexEntry}
use open_covibe_web.Storage.Index.Update.{
  Fingerprint, Listed, RunDir, listed, scan, Manifest, by_run, update, is_listed, retain_listed,
  Store, no_index, rebuild,
}
use open_covibe_web.Storage.Index.Rebuild.{
  Distinct, Known, Stored, Ready, Ready-Stored, update-scans, update-Stored,
}

retain_listed-lookup :
    (ds : List Listed) (m : Manifest) (id : String)
    → lookup id (retain_listed ds m) ≡ (if is_listed ds id then lookup id m else none)
unfolding lookup
retain_listed-lookup ds [] id = ground arith
retain_listed-lookup ds ((run_id, f) ∷ m) id =
    ground (arith, retain_listed-lookup ds m id, eq_iff run_id id)

-- The runs have different ids, and what is scanned of each is what `content` says of its fingerprint.
pub record Faithful (r : Reader) (content : String → Fingerprint → RunIndexEntry)
    (dirs : List RunDir) : Type 0 where
  pub distinct : Distinct (listed dirs)
  pub known : All (Known r content) (listed dirs)

-- An update without the directory says nothing.
abbrev pub FaithfulIf :
    Reader → (String → Fingerprint → RunIndexEntry) → Option (List RunDir) → Type 0
FaithfulIf r content none = Unit
FaithfulIf r content (some dirs) = Faithful r content dirs

-- An update in the past: when, on which runs, and whether the index could be written.
pub record Past : Type 0 where
  pub now : ℕ
  pub dirs : Option (List RunDir)
  pub index_ok : Bool

-- A manifest whose index was written is written, too.
abbrev pub after : Reader → Store → List Past → Store
after r s [] = s
after r s (u ∷ us) = after r (rebuild r s u.now u.dirs u.index_ok true).0 us

module _ (r : Reader) (content : String → Fingerprint → RunIndexEntry) where
  Kept : Store → Type 0
  Kept s = Stored content (by_run s.index) s.manifest

  all-Ready :
      (s : Store) (ds : List Listed)
      → Kept s
      → All (Known r content) ds
      → All (Ready r content (by_run s.index) s.manifest) ds
  unfolding Kept
  all-Ready s ds k g =
      All-both ds (λ d a b. Ready-Stored r content (by_run s.index) s.manifest d k a) g g

  entries-scanned :
      (s : Store) (dirs : List RunDir)
      → Kept s
      → Faithful r content dirs
      → (update r (by_run s.index) s.manifest (listed dirs)).0 ≡ map (scan r) (listed dirs)
  entries-scanned s dirs k g =
      update-scans r content (by_run s.index) s.manifest (listed dirs) g.distinct
        (all-Ready s (listed dirs) k g.known)

  retain-Stored :
      (index : List (String × RunIndexEntry)) (m : Manifest) (ds : List Listed)
      → Stored content index m
      → Stored content index (retain_listed ds m)
  retain-Stored index m ds k id f e a b =
      k id f e (ground (arith, a, retain_listed-lookup ds m id)) b

  rebuild-Kept :
      (s : Store) (now : ℕ) (dirs : Option (List RunDir)) (index_ok : Bool)
      → FaithfulIf r content dirs
      → Kept s
      → Kept (rebuild r s now dirs index_ok true).0
  unfolding Kept rebuild
  rebuild-Kept s now none index_ok g k = k
  rebuild-Kept s now (some dirs) false g k = k
  rebuild-Kept s now (some dirs) true g k =
      let m = (update r (by_run s.index) s.manifest (listed dirs)).1 in
      subst (λ es. Stored content (by_run es) (retain_listed (listed dirs) m))
        (sym (entries-scanned s dirs k g))
        (retain-Stored (by_run (map (scan r) (listed dirs))) m (listed dirs)
          (update-Stored r content (by_run s.index) s.manifest (listed dirs) g.distinct g.known))

  after-Kept :
      (s : Store) (past : List Past)
      → All (λ u. FaithfulIf r content u.dirs) past
      → Kept s
      → Kept (after r s past)
  after-Kept s [] g k = k
  after-Kept s (u ∷ us) g k =
      after-Kept (rebuild r s u.now u.dirs u.index_ok true).0 us g.1
        (rebuild-Kept s u.now u.dirs u.index_ok g.0 k)

  no_index-Kept : Kept no_index
  unfolding Kept lookup
  no_index-Kept id f e a b = ground (arith, a)

  rebuild-entries :
      (s : Store) (now : ℕ) (dirs : List RunDir)
      → Kept s
      → Faithful r content dirs
      → (rebuild r s now (some dirs) true true).1 ≡ some (map (scan r) (listed dirs))
  unfolding rebuild
  rebuild-entries s now dirs k g = ap (λ es. some es) (entries-scanned s dirs k g)

-- If the runs of each update have different ids, and equal fingerprints of a run stand for equal
-- files, then an update of the index gives what a scan of all runs gives, whatever updates came
-- before it, some without a directory of runs or with an index that could not be written.
pub rebuild-scratch :
    (r : Reader) (content : String → Fingerprint → RunIndexEntry) (past : List Past) (now : ℕ)
    (dirs : List RunDir)
    → All (λ u. FaithfulIf r content u.dirs) past
    → Faithful r content dirs
    → (rebuild r (after r no_index past) now (some dirs) true true).1
      ≡ (rebuild r no_index now (some dirs) true true).1
rebuild-scratch r content past now dirs h g =
    rebuild-entries r content (after r no_index past) now dirs
      (after-Kept r content no_index past h (no_index-Kept r content)) g
    ∙ sym (rebuild-entries r content no_index now dirs (no_index-Kept r content) g)
