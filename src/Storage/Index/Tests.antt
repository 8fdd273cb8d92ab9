-- ===== src/Storage/Index/Tests.antt =====
-- A run that is indexed, goes on, and is indexed again, beside one that does not change.
use open_covibe_web.Common.{
  ℕ, String, true, none, some, List, [], ◌∷◌, ◌≡◌, refl, ◌==◌, if◌then◌else◌,
}
use open_covibe_web.Models.Json.{str, object}
use open_covibe_web.Storage.Index.{Reader, RunIndexEntry, scan_run}
use open_covibe_web.Storage.Index.Update.{Fingerprint, RunDir, no_index, rebuild}
use open_covibe_web.Storage.Index.History.{Faithful, Past, after, rebuild-scratch}

abbrev a_reader : Reader
a_reader = record {
  from_str = λ s. some (object (("type", str "user_message") ∷ []));
  elapsed = λ s e. none;
}

abbrev print_of : ℕ → Fingerprint
print_of n = record { events_mtime_ns = n; events_size = n; meta_mtime_ns = 1; meta_size = 1 }

abbrev a_run : String → ℕ → List String → RunDir
a_run name n lines = record {
  name = name;
  events = some lines;
  meta = some (object []);
  fingerprint = some (print_of n);
}

abbrev later_lines : List String
later_lines = "one \"user_message\"" ∷ "two \"user_message\"" ∷ []

abbrev earlier_lines : List String
earlier_lines = "one \"user_message\"" ∷ []

abbrev at_first : List RunDir
at_first = a_run "a" 1 earlier_lines ∷ a_run "b" 1 earlier_lines ∷ []

abbrev at_last : List RunDir
at_last = a_run "a" 2 later_lines ∷ a_run "b" 1 earlier_lines ∷ []

abbrev content : String → Fingerprint → RunIndexEntry
content id f =
    scan_run a_reader id (if f.events_size == 1 then earlier_lines else later_lines) (object [])

at_first-Faithful : Faithful a_reader content at_first
at_first-Faithful = record {
  distinct = ((refl, tt), (tt, tt));
  known = (
    record { print = print_of 1; read = refl; scanned = refl },
    (record { print = print_of 1; read = refl; scanned = refl }, tt),
  );
}

at_last-Faithful : Faithful a_reader content at_last
at_last-Faithful = record {
  distinct = ((refl, tt), (tt, tt));
  known = (
    record { print = print_of 2; read = refl; scanned = refl },
    (record { print = print_of 1; read = refl; scanned = refl }, tt),
  );
}

abbrev once : List Past
once = record { now = 10; dirs = some at_first; index_ok = true } ∷ []

rebuild-scratch_example :
    (rebuild a_reader (after a_reader no_index once) 200 (some at_last) true true).1
    ≡ (rebuild a_reader no_index 200 (some at_last) true true).1
rebuild-scratch_example =
    rebuild-scratch a_reader content once 200 at_last (at_first-Faithful, tt) at_last-Faithful
