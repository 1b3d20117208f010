-- ===== src/Strings/Ink.antt =====
-- The printable ASCII bytes of a text: trimming drops none of them, and makes no text longer.
use elvis.Base.{
  ℕ, zero, suc, ◌+◌, ◌≤◌, ◌≡◌, refl, ap, ◌∙◌, Bool, true, false, ◌==◌, ◌&&◌, [], ◌∷◌, ◌++◌, Text,
  length, drop, All, All-reverse_aux, leb, if◌then◌else◌, arith,
}
use mathlib.Core.List.{reverse, reverse_aux, reverse-reverse}
use elvis.Strings.{space_width, last_space_width, trim_from, trim_space}

unfoldable pub ink : Text → Text
ink [] = []
ink (c ∷ s) = let rest = ink s in if leb 33 c && leb c 126 then c ∷ rest else rest

pub ink-append : (s t : Text) → ink (s ++ t) ≡ ink s ++ ink t
unfolding ink
ink-append [] t = refl
ink-append (c ∷ s) t = ground (arith, ink-append s t)

ink-reverse_aux : (s t : Text) → ink (reverse_aux s t) ≡ reverse_aux (ink s) (ink t)
unfolding ink
ink-reverse_aux [] t = refl
ink-reverse_aux (c ∷ s) t = ground (arith, ink-reverse_aux s (c ∷ t))

-- A width function that finds no ink.
abbrev Blank : (Text → ℕ) → Type 0
Blank width = (s : Text) → ink (drop (width s) s) ≡ ink s

space_width-Blank : Blank space_width
unfolding space_width ink
space_width-Blank [] = refl
space_width-Blank (a ∷ []) = ground arith
space_width-Blank (a ∷ b ∷ []) = ground arith
space_width-Blank (a ∷ b ∷ c ∷ s) = ground arith

abbrev pub is_ink : ℕ → Bool
is_ink c = leb 33 c && leb c 126

pub two_blank :
    (a b : ℕ) → (space_width (a ∷ b ∷ []) == 2) ≡ true → (is_ink a ≡ false) × (is_ink b ≡ false)
unfolding space_width
two_blank a b h = ground arith

pub three_blank :
    (a b c : ℕ)
    → (space_width (a ∷ b ∷ c ∷ []) == 3) ≡ true
    → (is_ink a ≡ false) × (is_ink b ≡ false) × (is_ink c ≡ false)
unfolding space_width
three_blank a b c h = ground arith

last_space_width-Blank : Blank last_space_width
unfolding last_space_width ink
last_space_width-Blank [] = refl
last_space_width-Blank (c ∷ []) = ground arith
last_space_width-Blank (c ∷ b ∷ []) = ground (arith, two_blank b c)
last_space_width-Blank (c ∷ b ∷ a ∷ s) = ground (arith, two_blank b c, three_blank a b c)

trim_from-ink :
    (width : Text → ℕ)
    → Blank width
    → (k : ℕ) (s : Text) → ink (trim_from width k s) ≡ ink (drop k s)
unfolding trim_from
trim_from-ink width h zero [] = refl
trim_from-ink width h (suc k) [] = refl
trim_from-ink width h (suc k) (c ∷ s) = trim_from-ink width h k s
trim_from-ink width h zero (c ∷ s) = go (width (c ∷ s)) (h (c ∷ s)) (λ w. trim_from-ink width h w s)
  where
    go :
        (n : ℕ)
        → ink (drop n (c ∷ s)) ≡ ink (c ∷ s)
        → ((w : ℕ) → ink (trim_from width w s) ≡ ink (drop w s))
        → ink (elim n as (λ _. Text) [ zero ↦ c ∷ s | suc w ↦ trim_from width w s ]) ≡ ink (c ∷ s)
    go zero e ih = refl
    go (suc w) e ih = ih w ∙ e

-- Trimming loses no printable ASCII byte.
pub ink-trim_space : (s : Text) → ink (trim_space s) ≡ ink s
unfolding trim_space ink
ink-trim_space s =
    let left = trim_from space_width 0 s in
    ink-reverse_aux (trim_from last_space_width 0 (reverse left)) []
    ∙ ap (λ t. reverse_aux t [])
        (trim_from-ink last_space_width last_space_width-Blank 0 (reverse left)
          ∙ ink-reverse_aux left [])
    ∙ reverse-reverse (ink left)
    ∙ trim_from-ink space_width space_width-Blank 0 s

length-reverse_aux : (s t : Text) → length (reverse_aux s t) ≡ length s + length t
length-reverse_aux [] t = omega arith
length-reverse_aux (c ∷ s) t = omega (arith, length-reverse_aux s (c ∷ t))

pub length-reverse : (s : Text) → length (reverse s) ≡ length s
length-reverse s = omega (arith, length-reverse_aux s [])

-- What a predicate on bytes and a bound on the length keep under trimming.
trim_from-shrinks :
    (P : ℕ → Type 0) (width : Text → ℕ) (k : ℕ) (s : Text)
    → All P s
    → All P (trim_from width k s) × (length (trim_from width k s) ≤ length s)
unfolding trim_from
trim_from-shrinks P width k [] h = (tt, omega arith)
trim_from-shrinks P width (suc k) (c ∷ s) (p, h) =
    let (all, short) = trim_from-shrinks P width k s h in (all, omega arith)
trim_from-shrinks P width zero (c ∷ s) (p, h) =
    go (width (c ∷ s)) (λ w. trim_from-shrinks P width w s h)
  where
    go :
        (n : ℕ)
        → ((w : ℕ) → All P (trim_from width w s) × (length (trim_from width w s) ≤ length s))
        → let t = elim n as (λ _. Text) [ zero ↦ c ∷ s | suc w ↦ trim_from width w s ] in
          All P t × (length t ≤ length (c ∷ s))
    go zero ih = ((p, h), omega arith)
    go (suc w) ih = ((ih w).0, omega (arith, (ih w).1))

pub trim_space-shrinks :
    (P : ℕ → Type 0) (s : Text)
    → All P s
    → All P (trim_space s) × (length (trim_space s) ≤ length s)
unfolding trim_space
trim_space-shrinks P s h =
    let left = trim_from space_width 0 s in
    let (h₁, k₁) = trim_from-shrinks P space_width 0 s h in
    let (h₂, k₂) =
      trim_from-shrinks P last_space_width 0 (reverse left) (All-reverse_aux P left [] h₁ tt) in
    let right = trim_from last_space_width 0 (reverse left) in
    (All-reverse_aux P right [] h₂ tt, omega (arith, length-reverse right, length-reverse left))
