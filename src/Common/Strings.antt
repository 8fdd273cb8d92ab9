-- ===== src/Common/Strings.antt =====
-- `str::trim`: Unicode white space off both ends of a text.
use Prim.Native.Nat.{ℕ, ◌+◌, ◌-◌}
use Prim.Native.Char.{code}
use Prim.Native.String
use Prim.Native.String.{String, len, slice}
use mathlib.Core.List.{List, [], ◌∷◌}
use mathlib.Core.Bool.{Bool, ◌&&◌, ◌||◌, false, true}
use text.Mathlib.Text.{◌==◌ as str_eq, starts_with, find?}
use mathlib.Core.Option.{Option, none, some}
use open_covibe_web.Common.Tests.{ltb, leb, ◌==◌, if◌then◌else◌}

-- Texts in a row, as `format!` puts them.
abbrev pub concat : List String → String
concat [] = ""
concat (s ∷ rest) = String.◌++◌ s (concat rest)

unfoldable pub is_whitespace : ℕ → Bool
is_whitespace c =
    (leb 9 c && leb c 13)
    || c == 32
    || c == 0x85
    || c == 0xa0
    || c == 0x1680
    || (leb 0x2000 c && leb c 0x200a)
    || c == 0x2028
    || c == 0x2029
    || c == 0x202f
    || c == 0x205f
    || c == 0x3000

unfoldable pub trim_start : String → String
unfolding is_whitespace
trim_start String.[] = String.[]
trim_start (String.◌∷◌ c s) = if is_whitespace (code c) then trim_start s else String.◌∷◌ c s

unfoldable pub trim_end : String → String
unfolding is_whitespace
trim_end String.[] = String.[]
trim_end (String.◌∷◌ c s) =
    let rest = trim_end s in
    if str_eq rest "" && is_whitespace (code c) then String.[] else String.◌∷◌ c rest

unfoldable pub trim : String → String
unfolding trim_start trim_end
trim s = trim_end (trim_start s)

-- `str::contains`.
unfoldable pub contains : String → String → Bool
contains s t = elim (find? s t) [ none ↦ false | some i ↦ true ]

-- What follows a prefix and what precedes a suffix; the text itself without one.
unfoldable pub without_prefix : String → String → String
without_prefix p s = if starts_with s p then slice s (len p) (len s) else s

unfoldable pub without_suffix : String → String → String
without_suffix p s =
    if leb (len p) (len s) && str_eq (slice s (len s - len p) (len s)) p
    then slice s 0 (len s - len p)
    else s

-- What stands between two marks, the second after the first.
unfoldable pub between : String → String → String → Option String
between opening closing s = elim (find? s opening) [
  | none ↦ none
  | some i ↦
      let rest = slice s (i + len opening) (len s) in
      elim (find? rest closing) [ none ↦ none | some j ↦ some (slice rest 0 j) ]
]

-- The bytes of a character and of a text in UTF-8.
abbrev pub bytes_of : ℕ → ℕ
bytes_of c = if ltb c 0x80 then 1 else if ltb c 0x800 then 2 else if ltb c 0x10000 then 3 else 4

abbrev pub byte_len : String → ℕ
byte_len String.[] = 0
byte_len (String.◌∷◌ c s) = bytes_of (code c) + byte_len s
