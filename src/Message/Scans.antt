-- ===== src/Message/Scans.antt =====
-- What the scans of pkg/utils/message.go find.
use elvis.Base.{
  ℕ, zero, suc, ◌+◌, ◌-◌, ◌*◌, ◌||◌, ◌≤◌, ◌<◌, ◌≡◌, refl, ◌⊎◌, inl, inr, Bool, true, false, not, [],
  ◌∷◌, some, Text, length, take, ◌==◌, Bool-cases, if◌then◌else◌, arith, length-take,
}
use elvis.Message.{
  scan_back, find_last_newline, find_last_space, is_fence, unclosed_from,
  find_last_unclosed_code_block, or_zero, natural_end, effective_limit, code_block_buffer,
  first_end,
}

scan_back-bound :
    (p : ℕ → Bool) (s : Text) (start n : ℕ)
    → (or_zero (scan_back p s start n) < n) ⊎ (or_zero (scan_back p s start n) ≡ 0)
unfolding scan_back
scan_back-bound p s start zero = inr refl
scan_back-bound p s start (suc i) = ground (arith, scan_back-bound p s start i)

pub natural_end-le : (s : Text) → natural_end s ≤ length s
unfolding natural_end find_last_newline find_last_space
natural_end-le s = ground (
  arith,
  scan_back-bound (λ c. c == 10) s (length s - 200) (length s),
  scan_back-bound (λ c. c == 32 || c == 9) s (length s - 100) (length s),
)

pub effective_limit_bounds : (n : ℕ) → (effective_limit n ≤ n) × (n ≤ 2 * effective_limit n)
unfolding effective_limit code_block_buffer
effective_limit_bounds n = ground arith

pub first_end-le : (n : ℕ) (s : Text) → first_end n s ≤ n
unfolding first_end
first_end-le n s = ground (
  arith,
  natural_end-le (take (effective_limit n) s),
  length-take (effective_limit n) s,
  effective_limit_bounds n,
)

-- An unclosed fence lies before the end of the text.
unclosed_from-lt :
    (i : ℕ) (in_block : Bool) (last : ℕ) (s : Text) {r : ℕ}
    → last ≤ i
    → unclosed_from i in_block last s ≡ some r
    → r ≤ i + length s
unfolding unclosed_from
unclosed_from-lt i in_block last (a ∷ b ∷ c ∷ s) {r} h e = elim (Bool-cases (is_fence a b c)) [
  | inl fence ↦ omega (
    arith,
    unclosed_from-lt (i + 3) (not in_block) (if in_block then last else i) s {r = r} (ground arith)
        (rw (fence, unclosed_from) at e),
  )
  | inr other ↦ omega (
    arith,
    unclosed_from-lt (i + 1) in_block last (b ∷ c ∷ s) {r = r} (omega arith)
        (rw (other, unclosed_from) at e),
  )
]
unclosed_from-lt i true last [] h e = ground arith
unclosed_from-lt i true last (a ∷ []) h e = ground arith
unclosed_from-lt i true last (a ∷ b ∷ []) h e = ground arith
unclosed_from-lt i false last [] h e = ground arith
unclosed_from-lt i false last (a ∷ []) h e = ground arith
unclosed_from-lt i false last (a ∷ b ∷ []) h e = ground arith

pub find_last_newline-le : (s : Text) → or_zero (find_last_newline s 200) ≤ length s
unfolding find_last_newline
find_last_newline-le s = omega (arith, scan_back-bound (λ c. c == 10) s (length s - 200) (length s))

pub find_last_unclosed-le :
    (s : Text) {r : ℕ} → find_last_unclosed_code_block s ≡ some r → r ≤ length s
unfolding find_last_unclosed_code_block
find_last_unclosed-le s {r} e = omega (arith, unclosed_from-lt 0 false 0 s {r = r} (omega arith) e)
