-- ===== src/Storage/Index/Update.antt =====
-- src-tauri/src/storage/run_index.rs: the index of all runs, which an update scans again only where
-- the fingerprint of a run has changed.
use open_covibe_web.Common.{
  ℕ, ◌-◌, String, str_eq, Bool, true, false, Option, none, some, List, [], ◌∷◌, ◌==◌, ◌&&◌,
  if◌then◌else◌, ltb, is_some, lookup, remove, any,
}
use open_covibe_web.Models.Json.{Json, get_str}
use open_covibe_web.Storage.Index.{Reader, RunIndexEntry, scan_run}

-- Time and size of events.jsonl and of meta.json.
pub record Fingerprint : Type 0 where
  pub events_mtime_ns : ℕ
  pub events_size : ℕ
  pub meta_mtime_ns : ℕ
  pub meta_size : ℕ

abbrev pub same : Fingerprint → Fingerprint → Bool
same f g =
    (f.events_mtime_ns == g.events_mtime_ns)
    && (f.events_size == g.events_size)
    && (f.meta_mtime_ns == g.meta_mtime_ns)
    && (f.meta_size == g.meta_size)

-- A directory of a run: the lines of events.jsonl and the value of meta.json, if they are there.
pub record RunDir : Type 0 where
  pub name : String
  pub events : Option (List String)
  pub meta : Option Json
  pub fingerprint : Option Fingerprint

-- A run that is in the index.
pub record Listed : Type 0 where
  pub run_id : String
  pub lines : List String
  pub meta : Json
  pub fingerprint : Option Fingerprint

-- The directories without the two files, or of a deleted run, are passed over.
abbrev listed_with : RunDir → Option (List String) → Option Json → List Listed → List Listed
listed_with d (some lines) (some meta) rest =
    if is_some (get_str "deleted_at" meta)
    then rest
    else record { run_id = d.name; lines = lines; meta = meta; fingerprint = d.fingerprint } ∷ rest
listed_with d (some lines) none rest = rest
listed_with d none meta rest = rest

abbrev pub listed : List RunDir → List Listed
listed [] = []
listed (d ∷ ds) = listed_with d d.events d.meta (listed ds)

abbrev pub scan : Reader → Listed → RunIndexEntry
scan r d = scan_run r d.run_id d.lines d.meta

abbrev pub Manifest : Type 0
Manifest = List (String × Fingerprint)

-- The entries of the index file by their runs; a later one replaces an earlier one.
abbrev pub by_run : List RunIndexEntry → List (String × RunIndexEntry)
by_run [] = []
by_run (e ∷ es) =
    let rest = by_run es in if is_some (lookup e.run_id rest) then rest else (e.run_id, e) ∷ rest

-- The entry to use again: the fingerprint is known and unchanged, and there is an entry.
abbrev pub reusable :
    Option Fingerprint → Option Fingerprint → Option RunIndexEntry → Option RunIndexEntry
reusable (some now) (some before) (some e) = if same now before then some e else none
reusable now before e = none

abbrev remembered : String → Option Fingerprint → Manifest → Manifest
remembered run_id none m = m
remembered run_id (some f) m = (run_id, f) ∷ remove run_id m

-- One run: its entry, what is left of the old entries, and the manifest.
abbrev pub visit :
    Reader
    → List (String × RunIndexEntry)
    → Manifest
    → Listed
    → Option RunIndexEntry
    → RunIndexEntry × List (String × RunIndexEntry) × Manifest
visit r old m d (some e) = (e, remove d.run_id old, m)
visit r old m d none = (scan r d, old, remembered d.run_id d.fingerprint m)

unfoldable pub update :
    Reader → List (String × RunIndexEntry) → Manifest → List Listed → List RunIndexEntry × Manifest
update r old m [] = ([], m)
update r old m (d ∷ ds) =
    let one = visit r old m d (reusable d.fingerprint (lookup d.run_id m) (lookup d.run_id old)) in
    let later = update r (one.1) (one.2) ds in (one.0 ∷ later.0, later.1)

abbrev pub is_listed : List Listed → String → Bool
is_listed ds run_id = any (λ d. str_eq d.run_id run_id) ds

-- `manifest.runs.retain(...)`.
abbrev pub retain_listed : List Listed → Manifest → Manifest
retain_listed ds [] = []
retain_listed ds ((run_id, f) ∷ m) =
    let rest = retain_listed ds m in if is_listed ds run_id then (run_id, f) ∷ rest else rest

-- The two files of the index, which read back as what was written, and the cache with the time when it was made, in seconds.
pub record Store : Type 0 where
  pub index : List RunIndexEntry
  pub manifest : Manifest
  pub cache : Option (ℕ × List RunIndexEntry)

abbrev pub no_index : Store
no_index = record { index = []; manifest = []; cache = none }

-- The index is written before the manifest, and the cache is set only after both.
abbrev pub save :
    Store → ℕ → List RunIndexEntry × Manifest → Bool → Bool → Store × Option (List RunIndexEntry)
save s now (entries, m) false later = (s, none)
save s now (entries, m) true false = (record s { index = entries }, none)
save s now (entries, m) true true =
    (record { index = entries; manifest = m; cache = some (now, entries) }, some entries)

-- An update without a look at the cache; the writes may fail. Without the directory of the runs there
-- is nothing to write.
unfoldable pub rebuild :
    Reader → Store → ℕ → Option (List RunDir) → Bool → Bool → Store × Option (List RunIndexEntry)
rebuild r s now none index_ok manifest_ok = (record s { cache = some (now, []) }, some [])
rebuild r s now (some dirs) index_ok manifest_ok =
    let ds = listed dirs in
    let out = update r (by_run s.index) s.manifest ds in
    save s now (out.0, retain_listed ds (out.1)) index_ok manifest_ok

abbrev cache_ttl_secs : ℕ
cache_ttl_secs = 120

abbrev pub fresh_entries : ℕ → Option (ℕ × List RunIndexEntry) → Option (List RunIndexEntry)
fresh_entries now none = none
fresh_entries now (some (computed_at, entries)) =
    if ltb (now - computed_at) cache_ttl_secs then some entries else none

unfoldable pub build_or_update_index :
    Reader → Store → ℕ → Option (List RunDir) → Bool → Bool → Store × Option (List RunIndexEntry)
build_or_update_index r s now dirs index_ok manifest_ok =
    let again = rebuild r s now dirs index_ok manifest_ok in
    elim (fresh_entries now s.cache) [ none ↦ again | some entries ↦ (s, some entries) ]

abbrev pub invalidate_cache : Store → Store
invalidate_cache s = record s { cache = none }
