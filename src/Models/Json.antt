-- ===== src/Models/Json.antt =====
-- `serde_json::Value`, as far as the program builds and reads it: its numbers are whole.
use open_covibe_web.Common.{
  ℕ, String, str_eq, Bool, List, [], ◌∷◌, Option, none, some, if◌then◌else◌, false,
}

mutual
  pub data Json : Type 0 where
    null : Json
    bool : Bool → Json
    num : ℕ → Json
    str : String → Json
    arr : Items → Json
    obj : Fields → Json

  pub data Items : Type 0 where
    nil : Items
    cons : Json → Items → Items

  pub data Fields : Type 0 where
    end : Fields
    field : String → Json → Fields → Fields

abbrev pub items : List Json → Items
items [] = nil
items (v ∷ vs) = cons v (items vs)

abbrev pub array : List Json → Json
array vs = arr (items vs)

abbrev pub fields : List (String × Json) → Fields
fields [] = end
fields ((k, v) ∷ r) = field k v (fields r)

abbrev pub object : List (String × Json) → Json
object fs = obj (fields fs)

abbrev pub find_field : String → Fields → Option Json
find_field k end = none
find_field k (field j v fs) = if str_eq j k then some v else find_field k fs

-- `Value::get` with a key.
abbrev pub get : String → Json → Option Json
get k (obj fs) = find_field k fs
get k null = none
get k (bool b) = none
get k (num n) = none
get k (str s) = none
get k (arr vs) = none

-- `Value::as_str`.
abbrev pub as_str : Json → Option String
as_str (str s) = some s
as_str null = none
as_str (bool b) = none
as_str (num n) = none
as_str (arr vs) = none
as_str (obj fs) = none

-- `Value::as_u64`.
abbrev pub as_u64 : Json → Option ℕ
as_u64 (num n) = some n
as_u64 null = none
as_u64 (bool b) = none
as_u64 (str s) = none
as_u64 (arr vs) = none
as_u64 (obj fs) = none

-- `v.get(k).and_then(|v| v.as_str())`.
abbrev pub get_str : String → Json → Option String
get_str k v = elim (get k v) [ none ↦ none | some w ↦ as_str w ]

-- `v.get(k).and_then(|v| v.as_str()).unwrap_or(default)`.
abbrev pub text_or : String → String → Json → String
text_or default k v = elim (get_str k v) [ none ↦ default | some s ↦ s ]

-- The items of an array, and none of anything else.
abbrev pub list_of : Items → List Json
list_of nil = []
list_of (cons v vs) = v ∷ list_of vs

abbrev pub as_array : Json → List Json
as_array (arr vs) = list_of vs
as_array null = []
as_array (bool b) = []
as_array (num n) = []
as_array (str s) = []
as_array (obj fs) = []

abbrev pub get_array : String → Json → List Json
get_array k v = elim (get k v) [ none ↦ [] | some w ↦ as_array w ]

abbrev pub entries : Fields → List (String × Json)
entries end = []
entries (field k v fs) = (k, v) ∷ entries fs

abbrev pub get_entries : String → Json → List (String × Json)
get_entries k v = elim (get k v) [ some (obj fs) ↦ entries fs | _ ↦ [] ]

abbrev pub get_u64 : String → Json → Option ℕ
get_u64 k v = elim (get k v) [ none ↦ none | some w ↦ as_u64 w ]

-- `v.get(j).and_then(|w| w.get(k))`, and the text there.
abbrev pub get_in : String → String → Json → Option Json
get_in j k v = elim (get j v) [ none ↦ none | some w ↦ get k w ]

abbrev pub get_str_in : String → String → Json → Option String
get_str_in j k v = elim (get j v) [ none ↦ none | some w ↦ get_str k w ]

-- `Option` as serde writes it: nothing is `null`.
abbrev pub opt_str : Option String → Json
opt_str none = null
opt_str (some s) = str s

abbrev pub opt_num : Option ℕ → Json
opt_num none = null
opt_num (some n) = num n

abbrev pub opt_value : Option Json → Json
opt_value none = null
opt_value (some v) = v

-- `if let Some(v) = o { map.insert(key, v) }`.
abbrev pub opt_field : String → Option Json → List (String × Json)
opt_field key none = []
opt_field key (some v) = (key, v) ∷ []

-- The texts in a list; other items are skipped.
abbrev pub strings : List Json → List String
strings [] = []
strings (v ∷ vs) = elim (as_str v) [ none ↦ strings vs | some s ↦ s ∷ strings vs ]

abbrev pub is_true : Option Json → Bool
is_true (some (bool b)) = b
is_true _ = false
