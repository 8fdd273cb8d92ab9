-- ===== src/Session/Attachments/Names.antt =====
-- src-tauri/src/agent/session_actor.rs: the names of saved attachments.
use Prim.Native.Char.{Char, code}
use open_covibe_web.Common.{
  zero, suc, ◌%◌, Bool-cases, inl, inr, ◌-◌, ℕ, ◌≤◌, ◌<◌, String, str_eq, true, false, none, some,
  ◌≡◌, refl, arith, ap, ◌∙◌, byte_len, bytes_of, ltb, leb, ap, ◌∙◌,
}
use open_covibe_web.Session.Attachments.{
  Alphanumeric, is_safe, cleaned, prefix_of, truncated, or_named, att_safe_filename,
}

-- All characters are safe.
abbrev pub AllSafe : Alphanumeric → String → Type 0
AllSafe alnum String.[] = Unit
AllSafe alnum (String.◌∷◌ c s) = (is_safe alnum (code c) ≡ true) × AllSafe alnum s

underscore : (alnum : Alphanumeric) → is_safe alnum 95 ≡ true
underscore alnum = ground arith

cleaned-AllSafe : (alnum : Alphanumeric) (s : String) → AllSafe alnum (cleaned alnum s)
cleaned-AllSafe alnum String.[] = tt
cleaned-AllSafe alnum (String.◌∷◌ c s) =
    let k = cleaned-AllSafe alnum s in
    elim (Bool-cases (is_safe alnum (code c))) [
      | inl h ↦ rw h (h, k)
      | inr h ↦ rw h (underscore alnum, k)
    ]

-- All characters are ASCII.
abbrev pub Ascii : String → Type 0
Ascii String.[] = Unit
Ascii (String.◌∷◌ c s) = (code c < 128) × Ascii s

cleaned-Ascii : (alnum : Alphanumeric) (s : String) → Ascii s → Ascii (cleaned alnum s)
cleaned-Ascii alnum String.[] a = tt
cleaned-Ascii alnum (String.◌∷◌ c s) a =
    let k = cleaned-Ascii alnum s a.1 in
    elim (Bool-cases (is_safe alnum (code c))) [
      | inl h ↦ rw h (a.0, k)
      | inr h ↦ rw h (omega arith, k)
    ]

-- The first characters.
abbrev pub first_chars : ℕ → String → String
first_chars zero s = String.[]
first_chars (suc n) String.[] = String.[]
first_chars (suc n) (String.◌∷◌ c s) = String.◌∷◌ c (first_chars n s)

first_chars-AllSafe :
    (alnum : Alphanumeric) (n : ℕ) (s : String) → AllSafe alnum s → AllSafe alnum (first_chars n s)
first_chars-AllSafe alnum zero s a = tt
first_chars-AllSafe alnum (suc n) String.[] a = tt
first_chars-AllSafe alnum (suc n) (String.◌∷◌ c s) a = (a.0, first_chars-AllSafe alnum n s a.1)

one_byte : (c : ℕ) → c < 128 → bytes_of c ≡ 1
one_byte c h = ground arith

three_bytes : (c : ℕ) → 0x800 ≤ c → c < 0x10000 → bytes_of c ≡ 3
three_bytes c h k = ground arith

less : (c n : ℕ) → bytes_of c ≡ 1 → suc n - bytes_of c ≡ n
less c n e = omega (arith, e)

prefix_of-Ascii :
    (n : ℕ) (s : String) → Ascii s → n ≤ byte_len s → prefix_of n s ≡ some (first_chars n s)
prefix_of-Ascii zero String.[] a h = refl
prefix_of-Ascii zero (String.◌∷◌ c s) a h = refl
prefix_of-Ascii (suc n) String.[] a h = ground (arith, h)
prefix_of-Ascii (suc n) (String.◌∷◌ c s) a h =
    let one = one_byte (code c) a.0 in
    let rest =
      ap (λ k. prefix_of k s) (less (code c) n one)
      ∙ prefix_of-Ascii n s a.1 (omega (arith, one, h)) in
    ground (arith, one, rest)

first_chars-size : (n : ℕ) (s : String) → Ascii s → byte_len (first_chars n s) ≤ n
first_chars-size zero s a = omega arith
first_chars-size (suc n) String.[] a = omega arith
first_chars-size (suc n) (String.◌∷◌ c s) a =
    omega (arith, one_byte (code c) a.0, first_chars-size n s a.1)

-- All characters have three bytes and are kept.
abbrev pub Wide : Alphanumeric → String → Type 0
Wide alnum String.[] = Unit
Wide alnum (String.◌∷◌ c s) =
    (0x800 ≤ code c) × (code c < 0x10000) × (is_safe alnum (code c) ≡ true) × Wide alnum s

third : (b n : ℕ) → b ≡ 3 → leb b n ≡ true → n % 3 ≡ 2 → (n - b) % 3 ≡ 2
third b n e k h = ground (arith, e, k, h)

prefix_of-Wide :
    (alnum : Alphanumeric) (n : ℕ) (s : String) → Wide alnum s → n % 3 ≡ 2 → prefix_of n s ≡ none
prefix_of-Wide alnum n String.[] w h = ground (arith, h)
prefix_of-Wide alnum n (String.◌∷◌ c s) w h =
    let three = three_bytes (code c) w.0 w.1 in
    let rest = prefix_of-Wide alnum (n - bytes_of (code c)) s w.3 in
    elim (Bool-cases (leb (bytes_of (code c)) n)) [
      | inl k ↦ ground (arith, k, rest (third (bytes_of (code c)) n three k h))
      | inr k ↦ ground (arith, k, h)
    ]

cleaned-Wide : (alnum : Alphanumeric) (s : String) → Wide alnum s → cleaned alnum s ≡ s
cleaned-Wide alnum String.[] w = refl
cleaned-Wide alnum (String.◌∷◌ c s) w = rw w.2 (ap (λ t. String.◌∷◌ c t) (cleaned-Wide alnum s w.3))

-- What a name of a file has to be.
pub record Named (alnum : Alphanumeric) (out : String) : Type 0 where
  pub safe : AllSafe alnum out
  pub sized : byte_len out ≤ 120
  pub filled : str_eq out "" ≡ false

truncated-Ascii :
    (alnum : Alphanumeric) (s : String)
    → Ascii s
    → AllSafe alnum s
    → (t : String) × (truncated s ≡ some t) × AllSafe alnum t × (byte_len t ≤ 120)
truncated-Ascii alnum s a k = elim (Bool-cases (ltb 120 (byte_len s))) [
  | inl h ↦ (
    first_chars 120 s,
    rw h (prefix_of-Ascii 120 s a (ground (arith, h))),
    first_chars-AllSafe alnum 120 s k,
    first_chars-size 120 s a,
  )
  | inr h ↦ (s, rw h refl, k, ground (arith, h))
]

letter :
    (alnum : Alphanumeric)
    → ((c : ℕ) → 97 ≤ c → c ≤ 122 → alnum c ≡ true)
    → (c : ℕ) → 97 ≤ c
    → c ≤ 122
    → is_safe alnum c ≡ true
letter alnum l c h k = ground (arith, l c h k)

dot : (alnum : Alphanumeric) → is_safe alnum 46 ≡ true
dot alnum = ground arith

default-AllSafe :
    (alnum : Alphanumeric)
    → ((c : ℕ) → 97 ≤ c → c ≤ 122 → alnum c ≡ true)
    → AllSafe alnum "attachment.bin"
default-AllSafe alnum l = (
  letter alnum l 97 (omega arith) (omega arith),
  (
    letter alnum l 116 (omega arith) (omega arith),
    (
      letter alnum l 116 (omega arith) (omega arith),
      (
        letter alnum l 97 (omega arith) (omega arith),
        (
          letter alnum l 99 (omega arith) (omega arith),
          (
            letter alnum l 104 (omega arith) (omega arith),
            (
              letter alnum l 109 (omega arith) (omega arith),
              (
                letter alnum l 101 (omega arith) (omega arith),
                (
                  letter alnum l 110 (omega arith) (omega arith),
                  (
                    letter alnum l 116 (omega arith) (omega arith),
                    (
                      dot alnum,
                      (
                        letter alnum l 98 (omega arith) (omega arith),
                        (
                          letter alnum l 105 (omega arith) (omega arith),
                          (letter alnum l 110 (omega arith) (omega arith), tt),
                        ),
                      ),
                    ),
                  ),
                ),
              ),
            ),
          ),
        ),
      ),
    ),
  ),
)

or_named-Named :
    (alnum : Alphanumeric) (t : String)
    → ((c : ℕ) → 97 ≤ c → c ≤ 122 → alnum c ≡ true)
    → AllSafe alnum t
    → byte_len t ≤ 120
    → (out : String) × (or_named (some t) ≡ some out) × Named alnum out
or_named-Named alnum t l k h = elim (Bool-cases (str_eq t "")) [
  | inl e ↦ (
    "attachment.bin",
    rw e refl,
    record { safe = default-AllSafe alnum l; sized = omega arith; filled = refl },
  )
  | inr e ↦ (t, rw e refl, record { safe = k; sized = h; filled = e })
]

-- If small letters are alphanumeric, then an ASCII name of an attachment makes the name of a file:
-- it is not empty, has at most 120 bytes, and all its characters are alphanumeric, dots,
-- underscores or hyphens.
pub att_safe_filename-Ascii :
    (alnum : Alphanumeric) (name : String)
    → ((c : ℕ) → 97 ≤ c → c ≤ 122 → alnum c ≡ true)
    → Ascii name
    → (out : String) × (att_safe_filename alnum name ≡ some out) × Named alnum out
unfolding att_safe_filename
att_safe_filename-Ascii alnum name l a =
    let s = cleaned alnum name in
    let t = truncated-Ascii alnum s (cleaned-Ascii alnum name a) (cleaned-AllSafe alnum name) in
    let o = or_named-Named alnum (t.0) l (t.2) (t.3) in (o.0, ap or_named t.1 ∙ o.1, o.2)

two_left : (b : ℕ) → b ≡ 1 → (120 - b) % 3 ≡ 2
two_left b e = rw e refl

-- A name of one ASCII character that is kept, followed by at least 120 bytes of characters of three
-- bytes each that are kept, makes no name of a file: the cut at byte 120 is inside a character, a
-- panic.
pub att_safe_filename-Wide :
    (alnum : Alphanumeric) (c : Char) (s : String)
    → code c < 128
    → is_safe alnum (code c) ≡ true
    → Wide alnum s
    → 120 ≤ byte_len s
    → att_safe_filename alnum (String.◌∷◌ c s) ≡ none
unfolding att_safe_filename
att_safe_filename-Wide alnum c s a k w h = rw k (
    rw (cleaned-Wide alnum s w) (
      ground (
        arith,
        one_byte (code c) a,
        prefix_of-Wide alnum (120 - bytes_of (code c)) s w
            (two_left (bytes_of (code c)) (one_byte (code c) a)),
        h,
      )))
