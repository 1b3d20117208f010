-- ===== src/Strings/TrimTwice.antt =====
-- Trimming a trimmed text changes nothing.
use elvis.Base.{ℕ, zero, suc, ◌≡◌, refl, sym, ap, ◌∙◌, [], ◌∷◌, ◌++◌, Text, arith}
use mathlib.Core.List.{reverse, reverse-append, reverse-reverse}
use elvis.Strings.{space_width, last_space_width, trim_from, trim_space}
use elvis.Strings.Trim.{trim_space-fixed}

-- What is left begins with nothing to drop, and is the end of the text.
trim_from-clean :
    (width : Text → ℕ) (k : ℕ) (s : Text) → width [] ≡ 0 → width (trim_from width k s) ≡ 0
unfolding trim_from
trim_from-clean width k [] h = h
trim_from-clean width (suc k) (c ∷ s) h = trim_from-clean width k s h
trim_from-clean width zero (c ∷ s) h = go (width (c ∷ s)) refl (λ w. trim_from-clean width w s h)
  where
    go :
        (n : ℕ)
        → width (c ∷ s) ≡ n
        → ((w : ℕ) → width (trim_from width w s) ≡ 0)
        → width (elim n as (λ _. Text) [ zero ↦ c ∷ s | suc w ↦ trim_from width w s ]) ≡ 0
    go zero e ih = e
    go (suc w) e ih = ih w

trim_from-suffix :
    (width : Text → ℕ) (k : ℕ) (s : Text) → (p : Text) × (s ≡ p ++ trim_from width k s)
unfolding trim_from
trim_from-suffix width k [] = ([], refl)
trim_from-suffix width (suc k) (c ∷ s) =
    let (p, e) = trim_from-suffix width k s in (c ∷ p, ap (◌∷◌ c) e)
trim_from-suffix width zero (c ∷ s) = go (width (c ∷ s)) (λ w. trim_from-suffix width w s)
  where
    go :
        (n : ℕ)
        → ((w : ℕ) → (p : Text) × (s ≡ p ++ trim_from width w s))
        → (p : Text) × (c ∷ s
            ≡ p ++ (elim n as (λ _. Text) [ zero ↦ c ∷ s | suc w ↦ trim_from width w s ]))
    go zero ih = ([], refl)
    go (suc w) ih = (c ∷ (ih w).0, ap (◌∷◌ c) (ih w).1)

first_two : (a b c : ℕ) (s : Text) → space_width (a ∷ b ∷ c ∷ s) ≡ 0 → space_width (a ∷ b ∷ []) ≡ 0
unfolding space_width
first_two a b c s h = ground arith

first_one : (a b : ℕ) → space_width (a ∷ b ∷ []) ≡ 0 → space_width (a ∷ []) ≡ 0
unfolding space_width
first_one a b h = ground arith

space_width-prefix : (p x : Text) → space_width (p ++ x) ≡ 0 → space_width p ≡ 0
space_width-prefix [] x h = unfold space_width in refl
space_width-prefix (a ∷ []) [] h = h
space_width-prefix (a ∷ []) (b ∷ []) h = first_one a b h
space_width-prefix (a ∷ []) (b ∷ c ∷ x) h = first_one a b (first_two a b c x h)
space_width-prefix (a ∷ b ∷ []) [] h = h
space_width-prefix (a ∷ b ∷ []) (c ∷ x) h = first_two a b c x h
space_width-prefix (a ∷ b ∷ c ∷ p) x h = unfold space_width in h

pub trim_space_idem : (s : Text) → trim_space (trim_space s) ≡ trim_space s
unfolding trim_space
trim_space_idem s =
    let left = trim_from space_width 0 s in
    let right = trim_from last_space_width 0 (reverse left) in
    let (p, e) = trim_from-suffix last_space_width 0 (reverse left) in
    let split : left ≡ reverse right ++ reverse p =
      sym (reverse-reverse left) ∙ ap reverse e ∙ reverse-append p right in
    trim_space-fixed (reverse right)
      (space_width-prefix (reverse right) (reverse p)
        (ap space_width (sym split) ∙ trim_from-clean space_width 0 s (unfold space_width in refl)))
      (ap last_space_width (reverse-reverse right)
        ∙ trim_from-clean last_space_width 0 (reverse left) (unfold last_space_width in refl))
