-- ===== src/Strings/Utf8.antt =====
-- UTF-8 as Go's `unicode/utf8` and `encoding/json` read it.
use elvis.Base.{ℕ, zero, suc, Bool, true, false, ◌&&◌, [], ◌∷◌, Text, ltb, leb, ◌==◌, if◌then◌else◌}

abbrev between : ℕ → ℕ → ℕ → Bool
between low high c = leb low c && leb c high

abbrev tail_byte : ℕ → Bool
tail_byte c = between 0x80 0xBF c

-- The least and the greatest second byte behind a first byte of a rune of three or four bytes.
abbrev second_low : ℕ → ℕ
second_low c = if c == 0xE0 then 0xA0 else if c == 0xF0 then 0x90 else 0x80

abbrev second_high : ℕ → ℕ
second_high c = if c == 0xED then 0x9F else if c == 0xF4 then 0x8F else 0xBF

-- How many more bytes a first byte announces; 4 for a byte that begins no rune.
abbrev announced : ℕ → ℕ
announced c =
    if ltb c 0x80
    then 0
    else if between 0xC2 0xDF c
    then 1
    else if between 0xE0 0xEF c
    then 2
    else if between 0xF0 0xF4 c
    then 3
    else 4

abbrev has_tail : ℕ → ℕ → Text → Bool
has_tail c (suc zero) (d ∷ s) = tail_byte d
has_tail c (suc (suc zero)) (d ∷ e ∷ s) = between (second_low c) (second_high c) d && tail_byte e
has_tail c (suc (suc (suc zero))) (d ∷ e ∷ f ∷ s) =
    between (second_low c) (second_high c) d && tail_byte e && tail_byte f
has_tail c zero s = true
has_tail c n s = false

-- `skip` bytes of a rune that is already read are left.
unfoldable pub valid_from : ℕ → Text → Text
valid_from skip [] = []
valid_from (suc skip) (c ∷ s) = c ∷ valid_from skip s
valid_from zero (c ∷ s) =
    let replaced = valid_from zero s in
    let rest = valid_from (announced c) s in
    if has_tail c (announced c) s then c ∷ rest else 0xEF ∷ 0xBF ∷ 0xBD ∷ replaced

-- What JSON makes of a text: each byte that is not part of a valid rune becomes U+FFFD.
unfoldable pub json_text : Text → Text
json_text s = valid_from zero s
