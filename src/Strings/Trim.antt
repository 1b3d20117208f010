-- ===== src/Strings/Trim.antt =====
-- Texts that `TrimSpace` leaves alone: no white space at either end.
use elvis.Base.{
  ℕ, ◌==◌, ◌≤◌, ◌<◌, ◌≡◌, refl, ap, ◌∙◌, false, [], ◌∷◌, ◌++◌, Text, All, All-reverse, arith,
}
use mathlib.Core.List.{reverse, reverse-reverse, reverse-append}
use elvis.Strings.{space_width, last_space_width, trim_from, trim_space}

-- Printable ASCII other than the space.
abbrev pub IsInk : ℕ → Type 0
IsInk c = (33 ≤ c) × (c < 127)

pub space_width-ink : (c : ℕ) (s : Text) → IsInk c → space_width (c ∷ s) ≡ 0
unfolding space_width
space_width-ink c [] h = ground arith
space_width-ink c (a ∷ []) h = ground arith
space_width-ink c (a ∷ b ∷ s) h = ground arith

-- The last byte of a white-space rune of two or three bytes is no ink.
ink_last_of_two : (b c : ℕ) → IsInk c → (space_width (b ∷ c ∷ []) == 2) ≡ false
unfolding space_width
ink_last_of_two b c h = ground arith

ink_last_of_three : (a b c : ℕ) → IsInk c → (space_width (a ∷ b ∷ c ∷ []) == 3) ≡ false
unfolding space_width
ink_last_of_three a b c h = ground arith

pub last_space_width-ink : (c : ℕ) (s : Text) → IsInk c → last_space_width (c ∷ s) ≡ 0
unfolding last_space_width
last_space_width-ink c [] h = ground arith
last_space_width-ink c (b ∷ []) h = ground (arith, ink_last_of_two b c h)
last_space_width-ink c (b ∷ a ∷ s) h =
    ground (arith, ink_last_of_two b c h, ink_last_of_three a b c h)

pub trim_from-fixed : (width : Text → ℕ) (s : Text) → width s ≡ 0 → trim_from width 0 s ≡ s
unfolding trim_from
trim_from-fixed width [] h = refl
trim_from-fixed width (c ∷ s) h = rw (h, trim_from)

pub trim_space-fixed :
    (s : Text) → space_width s ≡ 0 → last_space_width (reverse s) ≡ 0 → trim_space s ≡ s
unfolding trim_space
trim_space-fixed s h k =
    ap (λ t. reverse (trim_from last_space_width 0 (reverse t))) (trim_from-fixed space_width s h)
    ∙ ap reverse (trim_from-fixed last_space_width (reverse s) k)
    ∙ reverse-reverse s

-- A text that begins and ends in ink.
pub trim_space-framed :
    (a : ℕ) (s : Text) (b : ℕ) → IsInk a → IsInk b → trim_space (a ∷ s ++ b ∷ []) ≡ a ∷ s ++ b ∷ []
trim_space-framed a s b ha hb =
    trim_space-fixed (a ∷ s ++ b ∷ []) (space_width-ink a (s ++ b ∷ []) ha)
      (rw (reverse-append (a ∷ s) (b ∷ [])) (last_space_width-ink b (reverse (a ∷ s)) hb))

pub trim_space-ink : (s : Text) → All IsInk s → trim_space s ≡ s
trim_space-ink s h = trim_space-fixed s (go s h) (go' (reverse s) (All-reverse IsInk s h))
  where
    go : (t : Text) → All IsInk t → space_width t ≡ 0
    go [] k = unfold space_width in refl
    go (c ∷ t) k = space_width-ink c t k.0

    go' : (t : Text) → All IsInk t → last_space_width t ≡ 0
    go' [] k = unfold last_space_width in refl
    go' (c ∷ t) k = last_space_width-ink c t k.0
