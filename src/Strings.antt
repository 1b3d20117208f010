-- ===== src/Strings.antt =====
-- Go's `strings` package, as far as the program uses it, over the bytes of a string.
pub mod Trim
pub mod TrimTwice
pub mod Lower
pub mod Cut
pub mod Ink
pub mod Keep
pub mod Utf8
pub mod Paths
pub mod Sample
use elvis.Base.{
  ℕ, zero, suc, ◌+◌, Bool, true, false, ◌&&◌, ◌||◌, List, [], ◌∷◌, map, Option, none, some, Text,
  all, ltb, leb, ◌==◌, if◌then◌else◌,
}
use mathlib.Core.List.{reverse}

-- ASCII white space of `unicode.IsSpace`.
unfoldable pub is_ascii_space : ℕ → Bool
is_ascii_space c = leb 9 c && leb c 13 || c == 32

-- How many bytes the white-space rune at the head takes, in UTF-8; 0 if there is none there.
unfoldable pub space_width : Text → ℕ
unfolding is_ascii_space
space_width [] = 0
space_width (a ∷ []) = if is_ascii_space a then 1 else 0
space_width (a ∷ b ∷ []) =
    if is_ascii_space a then 1 else if a == 0xC2 && (b == 0x85 || b == 0xA0) then 2 else 0
space_width (a ∷ b ∷ c ∷ s) =
    if is_ascii_space a
    then 1
    else if a == 0xC2 && (b == 0x85 || b == 0xA0)
    then 2
    else if a == 0xE1 && b == 0x9A && c == 0x80
        || a == 0xE2
          && b == 0x80
          && (leb 0x80 c && leb c 0x8A || c == 0xA8 || c == 0xA9 || c == 0xAF)
        || a == 0xE2 && b == 0x81 && c == 0x9F
        || a == 0xE3 && b == 0x80 && c == 0x80
    then 3
    else 0

-- The same at the end of a text that is given backwards.
unfoldable pub last_space_width : Text → ℕ
unfolding is_ascii_space
last_space_width [] = 0
last_space_width (a ∷ []) = if is_ascii_space a then 1 else 0
last_space_width (b ∷ a ∷ []) =
    if is_ascii_space b then 1 else if space_width (a ∷ b ∷ []) == 2 then 2 else 0
last_space_width (c ∷ b ∷ a ∷ s) =
    if is_ascii_space c
    then 1
    else if space_width (b ∷ c ∷ []) == 2
    then 2
    else if space_width (a ∷ b ∷ c ∷ []) == 3
    then 3
    else 0

-- Drops the first bytes, then the pieces that `width` finds at the head.
unfoldable pub trim_from : (Text → ℕ) → ℕ → Text → Text
trim_from width k [] = []
trim_from width (suc k) (c ∷ s) = trim_from width k s
trim_from width zero (c ∷ s) = elim (width (c ∷ s)) [ zero ↦ c ∷ s | suc w ↦ trim_from width w s ]

-- `strings.TrimSpace`
unfoldable pub trim_space : Text → Text
trim_space s = reverse (trim_from last_space_width 0 (reverse (trim_from space_width 0 s)))

-- `strings.ToLower` of a text that holds a byte above 127 goes by Unicode's case table.
pub record Unicode : Type 0 where
  pub lower_unicode : Text → Text

unfoldable pub lower_byte : ℕ → ℕ
lower_byte c = if leb b'A' c && leb c b'Z' then c + 32 else c

unfoldable pub is_ascii : Text → Bool
is_ascii s = all (λ c. ltb c 128) s

unfoldable pub to_lower : ⦃u : Unicode⦄ → Text → Text
unfolding lower_byte is_ascii
to_lower ⦃u⦄ s = if is_ascii s then map lower_byte s else u.lower_unicode s

-- `strings.HasPrefix(s, p)`
unfoldable pub has_prefix : Text → Text → Bool
has_prefix s [] = true
has_prefix [] (c ∷ p) = false
has_prefix (d ∷ s) (c ∷ p) = d == c && has_prefix s p

-- `strings.Contains(s, p)`
unfoldable pub contains : Text → Text → Bool
unfolding has_prefix
contains [] p = has_prefix [] p
contains (c ∷ s) p = has_prefix (c ∷ s) p || contains s p

-- The text before and after the first byte `sep`: what `strings.Index` and slices give.
unfoldable pub cut : ℕ → Text → Option (Text × Text)
cut sep [] = none
cut sep (c ∷ s) =
    let rest = cut sep s in
    if c == sep then some ([], s) else elim rest [ none ↦ none | some (a, b) ↦ some (c ∷ a, b) ]

-- `strings.SplitN(s, sep, n)` for a separator of one byte.
unfoldable pub split_n : ℕ → ℕ → Text → List Text
split_n zero sep s = []
split_n (suc zero) sep s = s ∷ []
split_n (suc (suc n)) sep s = elim (cut sep s) [
  | none ↦ s ∷ []
  | some (a, b) ↦ a ∷ split_n (suc n) sep b
]

-- `strings.ReplaceAll(s, old, new)` for texts of one byte.
unfoldable pub replace_byte : ℕ → ℕ → Text → Text
replace_byte old new = map (λ c. if c == old then new else c)
