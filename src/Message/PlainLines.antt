-- ===== src/Message/PlainLines.antt =====
-- What the scans of pkg/utils/message.go find in a line without white space and backticks.
use elvis.Base.{
  ℕ, zero, suc, ◌+◌, ◌-◌, ◌≤◌, ◌≡◌, ◌≢◌, refl, ap, ◌∙◌, ◌⊎◌, inl, inr, Bool, true, false, ◌||◌,
  List, [], ◌∷◌, ◌++◌, none, some, Text, length, take, drop, All, ◌==◌, arith,
}
use elvis.Strings.Trim.{IsInk}
use elvis.Strings.Cut.{Lacks}
use elvis.Message.{
  byte_at, scan_back, find_last_newline, find_last_space, is_fence, unclosed_from, closing_from,
  index_newline, or_zero, natural_end,
}

-- A byte of a line that offers no place to split and opens no block.
abbrev pub IsPlain : ℕ → Type 0
IsPlain c = IsInk c × (c ≢ b'`')

-- Within ink no newline or space is found.
pub byte_at-IsInk : (s : Text) (i : ℕ) → All IsInk s → (byte_at s i ≡ 0) ⊎ IsInk (byte_at s i)
unfolding byte_at
byte_at-IsInk [] i h = inl refl
byte_at-IsInk (c ∷ s) zero h = inr h.0
byte_at-IsInk (c ∷ s) (suc i) h = byte_at-IsInk s i h.1

pub scan_back-none :
    (p : ℕ → Bool) (s : Text) (start n : ℕ)
    → ((i : ℕ) → p (byte_at s i) ≡ false)
    → scan_back p s start n ≡ none
unfolding scan_back
scan_back-none p s start zero h = refl
scan_back-none p s start (suc i) h = ground (arith, h i, scan_back-none p s start i h)

pub natural_end-ink : (s : Text) → All IsInk s → natural_end s ≡ 0
unfolding natural_end find_last_newline find_last_space
natural_end-ink s h =
    let newline =
      scan_back-none (λ c. c == 10) s (length s - 200) (length s)
        (λ i. ground (arith, byte_at-IsInk s i h)) in
    let space =
      scan_back-none (λ c. c == 32 || c == 9) s (length s - 100) (length s)
        (λ i. ground (arith, byte_at-IsInk s i h)) in
    ground arith

-- An open block stays open.
pub block_open : (i last : ℕ) (s : Text) → Lacks b'`' s → unclosed_from i true last s ≡ some last
unfolding unclosed_from
block_open i last [] h = refl
block_open i last (a ∷ []) h = refl
block_open i last (a ∷ b ∷ []) h = refl
block_open i last (a ∷ b ∷ c ∷ s) h =
    let other : is_fence a b c ≡ false = ground arith in
    rw (other, unclosed_from) (block_open (i + 1) last (b ∷ c ∷ s) h.1)

-- The next fence stands behind all bytes that are no backticks.
pub closing_after :
    (i : ℕ) (s : Text) → (or_zero (closing_from i s) ≡ 0) ⊎ (i + 3 ≤ or_zero (closing_from i s))
unfolding closing_from
closing_after i [] = inl refl
closing_after i (a ∷ []) = inl refl
closing_after i (a ∷ b ∷ []) = inl refl
closing_after i (a ∷ b ∷ c ∷ s) = ground (arith, closing_after (i + 1) (b ∷ c ∷ s))

pub closing_behind :
    (i : ℕ) (p q : Text)
    → Lacks b'`' p
    → (or_zero (closing_from i (p ++ q)) ≡ 0)
      ⊎ (i + length p + 3 ≤ or_zero (closing_from i (p ++ q)))
unfolding closing_from
closing_behind i [] q h = ground (arith, closing_after i q)
closing_behind i (a ∷ []) [] h = inl refl
closing_behind i (a ∷ []) (b ∷ []) h = inl refl
closing_behind i (a ∷ []) (b ∷ c ∷ q) h =
    let other : is_fence a b c ≡ false = ground arith in
    rw (other, closing_from) (ground (arith, closing_after (i + 1) (b ∷ c ∷ q)))
closing_behind i (a ∷ b ∷ []) [] h = inl refl
closing_behind i (a ∷ b ∷ []) (c ∷ q) h =
    let other : is_fence a b c ≡ false = ground arith in
    rw (other, closing_from) (ground (arith, closing_behind (i + 1) (b ∷ []) (c ∷ q) h.1))
closing_behind i (a ∷ b ∷ c ∷ p) q h =
    let other : is_fence a b c ≡ false = ground arith in
    rw (other, closing_from) (ground (arith, closing_behind (i + 1) (b ∷ c ∷ p) q h.1))

pub index_newline-append :
    (i : ℕ) (p q : Text) → All IsInk p → index_newline i (p ++ 10 ∷ q) ≡ some (i + length p)
unfolding index_newline
index_newline-append i [] q h = ground arith
index_newline-append i (c ∷ p) q h =
    let other : (c == 10) ≡ false = ground arith in
    rw (other, index_newline) (index_newline-append (i + 1) p q h.1 ∙ ap some (omega arith))

pub take-append {ℓ} :
    {A : Type ℓ} (k : ℕ) (xs ys : List A) → k ≤ length xs → take k (xs ++ ys) ≡ take k xs
take-append zero xs ys h = refl
take-append (suc k) [] ys h = absurd (omega arith)
take-append (suc k) (x ∷ xs) ys h = rw (take-append k xs ys (omega arith))

pub drop-append {ℓ} :
    {A : Type ℓ} (k : ℕ) (xs ys : List A) → k ≤ length xs → drop k (xs ++ ys) ≡ drop k xs ++ ys
drop-append zero xs ys h = refl
drop-append (suc k) [] ys h = absurd (omega arith)
drop-append (suc k) (x ∷ xs) ys h = drop-append k xs ys (omega arith)

pub All-drop {ℓ κ} :
    {A : Type ℓ} (P : A → Type κ) (k : ℕ) (xs : List A) → All P xs → All P (drop k xs)
All-drop P zero xs h = h
All-drop P (suc k) [] h = h
All-drop P (suc k) (x ∷ xs) h = All-drop P k xs h.1

pub plain-IsInk : (s : Text) → All IsPlain s → All IsInk s
plain-IsInk [] h = tt
plain-IsInk (c ∷ s) h = (h.0.0, plain-IsInk s h.1)

pub plain-Lacks : (s : Text) → All IsPlain s → Lacks b'`' s
plain-Lacks [] h = tt
plain-Lacks (c ∷ s) h = (h.0.1, plain-Lacks s h.1)
