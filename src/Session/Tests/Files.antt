-- ===== src/Session/Tests/Files.antt =====
-- Names of attachments.
use open_covibe_web.Common.{
  ℕ, zero, suc, ◌≤◌, ◌*◌, String, true, ◌&&◌, ◌||◌, none, some, ◌≡◌, refl, arith, leb, byte_len,
}
use open_covibe_web.Session.Attachments.{Alphanumeric, att_safe_filename}
use open_covibe_web.Session.Attachments.Names.{
  Named, Wide, att_safe_filename-Ascii, att_safe_filename-Wide,
}

-- Small letters, and Chinese characters.
abbrev letters : Alphanumeric
letters c = (leb 97 c && leb c 122) || leb 0x4e00 c

letters-small : (c : ℕ) → 97 ≤ c → c ≤ 122 → letters c ≡ true
letters-small c h k = ground (arith, h, k)

att_safe_filename-Ascii_example :
    (out : String) × (att_safe_filename letters "a/b" ≡ some out) × Named letters out
att_safe_filename-Ascii_example =
    att_safe_filename-Ascii letters "a/b" letters-small
      (omega arith, (omega arith, (omega arith, tt)))

abbrev chinese : ℕ → String
chinese zero = String.[]
chinese (suc n) = String.◌∷◌ "中" (chinese n)

chinese-Wide : (n : ℕ) → Wide letters (chinese n)
chinese-Wide zero = tt
chinese-Wide (suc n) = (omega arith, omega arith, refl, chinese-Wide n)

byte_len-chinese : (n : ℕ) → byte_len (chinese n) ≡ 3 * n
byte_len-chinese zero = refl
byte_len-chinese (suc n) = omega (arith, byte_len-chinese n)

att_safe_filename-Wide_example : att_safe_filename letters (String.◌∷◌ "a" (chinese 40)) ≡ none
att_safe_filename-Wide_example =
    att_safe_filename-Wide letters "a" (chinese 40) (omega arith) refl (chinese-Wide 40)
      (omega (arith, byte_len-chinese 40))
