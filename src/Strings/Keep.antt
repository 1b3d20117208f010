-- ===== src/Strings/Keep.antt =====
-- Trimming stops at a printable byte.
use elvis.Base.{
  ℕ, zero, suc, ◌≤◌, ◌≡◌, refl, ap, ◌∙◌, [], ◌∷◌, ◌++◌, Text, length, append_assoc, arith,
}
use mathlib.Core.List.{reverse, reverse-append, reverse-reverse}
use elvis.Strings.{space_width, last_space_width, trim_from, trim_space}
use elvis.Strings.Trim.{IsInk, space_width-ink, last_space_width-ink, trim_from-fixed}
use elvis.Strings.Ink.{two_blank, three_blank}

-- From the end, a white-space rune in front of `b` does not reach `b`.
last_space_width-le :
    (r : Text) (b : ℕ) (q : Text) → IsInk b → last_space_width (r ++ b ∷ q) ≤ length r
unfolding last_space_width
last_space_width-le [] b q h = omega (arith, last_space_width-ink b q h)
last_space_width-le (c ∷ []) b [] h = ground (arith, two_blank b c)
last_space_width-le (c ∷ []) b (x ∷ q) h = ground (arith, two_blank b c, three_blank x b c)
last_space_width-le (c ∷ d ∷ []) b q h = ground (arith, three_blank b d c)
last_space_width-le (c ∷ d ∷ e ∷ r) b q h = ground arith

trim_from-keep :
    (k : ℕ) (r : Text) (b : ℕ) (q : Text)
    → IsInk b
    → k ≤ length r
    → (r' : Text) × (trim_from last_space_width k (r ++ b ∷ q) ≡ r' ++ b ∷ q)
unfolding trim_from
trim_from-keep zero [] b q h l =
    ([], trim_from-fixed last_space_width (b ∷ q) (last_space_width-ink b q h))
trim_from-keep (suc k) [] b q h l = absurd (omega arith)
trim_from-keep (suc k) (c ∷ r) b q h l = trim_from-keep k r b q h (omega arith)
trim_from-keep zero (c ∷ r) b q h l =
    go (last_space_width (c ∷ r ++ b ∷ q)) (last_space_width-le (c ∷ r) b q h)
      (λ w k. trim_from-keep w r b q h k)
  where
    go :
        (n : ℕ)
        → n ≤ suc (length r)
        → ((w : ℕ)
            → w ≤ length r
            → (r' : Text) × (trim_from last_space_width w (r ++ b ∷ q) ≡ r' ++ b ∷ q))
        → (r' : Text) × ((elim n as (λ _. Text) [
          | zero ↦ c ∷ r ++ b ∷ q
          | suc w ↦ trim_from last_space_width w (r ++ b ∷ q)
        ])
            ≡ r' ++ b ∷ q)
    go zero k ih = (c ∷ r, refl)
    go (suc w) k ih = ih w (omega arith)

reverse-middle : (s : Text) (b : ℕ) (t : Text) → reverse (s ++ b ∷ t) ≡ reverse t ++ b ∷ reverse s
reverse-middle s b t =
    reverse-append s (b ∷ t)
    ∙ ap (λ x. x ++ reverse s) (reverse-append (b ∷ []) t)
    ∙ append_assoc (reverse t) (b ∷ []) (reverse s)

-- Trimming a text that begins in ink and has ink at `b` drops nothing up to `b`.
pub trim_space-keep :
    (a : ℕ) (s : Text) (b : ℕ) (t : Text)
    → IsInk a
    → IsInk b
    → (t' : Text) × (trim_space (a ∷ s ++ b ∷ t) ≡ a ∷ s ++ b ∷ t')
unfolding trim_space
trim_space-keep a s b t ha hb =
    let (r', kept) = trim_from-keep 0 (reverse t) b (reverse (a ∷ s)) hb (omega arith) in
    (
      reverse r',
      ap (λ x. reverse (trim_from last_space_width 0 (reverse x)))
            (trim_from-fixed space_width (a ∷ s ++ b ∷ t) (space_width-ink a (s ++ b ∷ t) ha))
          ∙ ap (λ x. reverse (trim_from last_space_width 0 x)) (reverse-middle (a ∷ s) b t)
          ∙ ap reverse kept
          ∙ reverse-middle r' b (reverse (a ∷ s))
          ∙ ap (λ x. x ++ b ∷ reverse r') (reverse-reverse (a ∷ s)),
    )
