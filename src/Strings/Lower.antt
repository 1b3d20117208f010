-- ===== src/Strings/Lower.antt =====
-- Texts that `ToLower` leaves alone: ASCII without capitals.
use elvis.Base.{ℕ, ◌<◌, ◌≡◌, refl, ◌⊎◌, true, [], ◌∷◌, map, Text, All, arith}
use elvis.Strings.{lower_byte, is_ascii, Unicode, to_lower}

abbrev pub IsLow : ℕ → Type 0
IsLow c = (c < 128) × ((c < b'A') ⊎ (b'Z' < c))

is_ascii-low : (s : Text) → All IsLow s → is_ascii s ≡ true
unfolding is_ascii
is_ascii-low [] h = refl
is_ascii-low (c ∷ s) h = ground (arith, is_ascii-low s)

map-lower_byte-low : (s : Text) → All IsLow s → map lower_byte s ≡ s
unfolding lower_byte
map-lower_byte-low [] h = refl
map-lower_byte-low (c ∷ s) h = ground (arith, map-lower_byte-low s)

pub to_lower-low : ⦃u : Unicode⦄ (s : Text) → All IsLow s → to_lower s ≡ s
unfolding to_lower
to_lower-low s h = rw (is_ascii-low s h) (map-lower_byte-low s h)

-- The lower case of an ASCII text holds no capital.
pub map-lower_byte-IsLow : (s : Text) → is_ascii s ≡ true → All IsLow (map lower_byte s)
unfolding lower_byte is_ascii
map-lower_byte-IsLow [] h = tt
map-lower_byte-IsLow (c ∷ s) h = (ground arith, map-lower_byte-IsLow s (ground arith))
