-- ===== src/Message/Bounds.antt =====
-- Every chunk of `SplitMessage` (pkg/utils/message.go) fits the limit.
use elvis.Base.{
  ℕ, zero, suc, ◌+◌, ◌-◌, ◌≤◌, ◌<◌, ◌≡◌, ◌≢◌, subst, refl, Bool, true, false, ◌&&◌, List, [], ◌∷◌,
  Option, none, some, Text, length, take, All, ltb, leb, ◌==◌, is_nil, if◌then◌else◌, arith,
  length-take, length-append,
}
use mathlib.Core.List.{reverse, reverse_aux}
use elvis.Message.{
  find_last_newline, find_last_unclosed_code_block, find_next_closing_code_block, or_zero,
  drop_blank, trim_right, Round, stop, emit, panic, effective_limit, natural_end, first_end,
  plain_cut, closing_fence, inject, header, header_end, split_inside, split_before, split_block,
  split_long, round, Result, chunks, panicked, out_of_fuel, last_chunk, add_chunk, split_message,
}
use elvis.Message.Scans.{
  natural_end-le, effective_limit_bounds, first_end-le, find_last_unclosed-le, find_last_newline-le,
}

length-reverse_aux : (s t : Text) → length (reverse_aux s t) ≡ length s + length t
length-reverse_aux [] t = omega arith
length-reverse_aux (c ∷ s) t = omega (arith, length-reverse_aux s (c ∷ t))

drop_blank-le : (s : Text) → length (drop_blank s) ≤ length s
unfolding drop_blank
drop_blank-le [] = omega arith
drop_blank-le (c ∷ s) = ground (arith, drop_blank-le s)

trim_right-le : (s : Text) → length (trim_right s) ≤ length s
unfolding trim_right
trim_right-le s = omega (
  arith,
  length-reverse_aux (drop_blank (reverse s)) [],
  drop_blank-le (reverse s),
  length-reverse_aux s [],
)

-- The chunk of a round, if it cuts one off, fits.
abbrev Fits : ℕ → Round → Type 0
Fits n (stop none) = Unit
Fits n (stop (some c)) = length c ≤ n
Fits n (emit c rest) = length c ≤ n
Fits n panic = n < 5

if-Fits :
    (n : ℕ) (b : Bool) (x y : Round)
    → (b ≡ true → Fits n x)
    → (b ≡ false → Fits n y)
    → Fits n (if b then x else y)
if-Fits n true x y h k = h refl
if-Fits n false x y h k = k refl

module _ (n : ℕ) (content : Text) where
  plain_cut-Fits : (end : ℕ) → end ≤ n → Fits n (plain_cut n content end)
  unfolding plain_cut
  plain_cut-Fits end h =
      let cut = if end == 0 then effective_limit n else end in
      ground (arith, length-take cut content, effective_limit_bounds n)

  inject-Fits : (hd : Text) (end : ℕ) → end + 5 ≤ n → Fits n (inject content hd end)
  unfolding inject
  inject-Fits hd end h = omega (
    arith,
    length-append (trim_right (take end content)) closing_fence,
    trim_right-le (take end content),
    length-take end content,
  )

  split_inside-Fits : (unclosed : ℕ) → 6 ≤ n → Fits n (split_inside n content unclosed)
  unfolding split_inside
  split_inside-Fits unclosed h =
      let better = or_zero (find_last_newline (take (n - 5) content) 200) in
      inject-Fits (header content unclosed) _
        (ground (arith, find_last_newline-le (take (n - 5) content), length-take (n - 5) content))

  split_before-Fits : (unclosed : ℕ) → unclosed ≤ n → Fits n (split_before n content unclosed)
  unfolding split_before
  split_before-Fits unclosed h =
      if-Fits n (ltb 0 (natural_end (take unclosed content))) _ _
        (λ e.
          plain_cut-Fits _
            (omega (arith, natural_end-le (take unclosed content), length-take unclosed content)))
        (λ e.
          if-Fits n (ltb 20 unclosed) _ _ (λ e'. plain_cut-Fits unclosed h)
            (λ e'.
              if-Fits n (ltb n 5) _ _ (λ tiny. ground arith)
                (λ small. inject-Fits (header content unclosed) (n - 5) (ground arith))))

  split_block-Fits :
      (msg_end unclosed : ℕ)
      → msg_end ≤ n
      → unclosed ≤ n
      → Fits n (split_block n content msg_end unclosed)
  unfolding split_block
  split_block-Fits msg_end unclosed h k =
      let closing = or_zero (find_next_closing_code_block content msg_end) in
      if-Fits n (ltb 0 closing && leb closing n) _ _ (λ e. plain_cut-Fits closing (ground arith))
        (λ e.
          if-Fits n (ltb (header_end content unclosed + 20) msg_end) _ _
            (λ inside. split_inside-Fits unclosed (ground arith))
            (λ before. split_before-Fits unclosed k))

  split_long-Fits : Fits n (split_long n content)
  unfolding split_long
  split_long-Fits = go (find_last_unclosed_code_block (take (first_end n content) content)) refl
    where
      go :
          (o : Option ℕ)
          → find_last_unclosed_code_block (take (first_end n content) content) ≡ o
          → Fits n (elim o as (λ _. Round) [
            | none ↦ plain_cut n content (first_end n content)
            | some unclosed ↦ split_block n content (first_end n content) unclosed
          ])
      go none e = plain_cut-Fits (first_end n content) (first_end-le n content)
      go (some unclosed) e =
          split_block-Fits (first_end n content) unclosed (first_end-le n content) (
            omega (
              arith,
              find_last_unclosed-le (take (first_end n content) content) e,
              length-take (first_end n content) content,
              first_end-le n content,
            ))

  round-Fits : Fits n (round n content)
  unfolding round
  round-Fits =
      if-Fits n (is_nil content) _ _ (λ _. tt)
        (λ _. if-Fits n (leb (length content) n) _ _ (λ e. ground arith) (λ _. split_long-Fits))

abbrev AllFit : ℕ → Result → Type 0
AllFit n (chunks cs) = All (λ c. length c ≤ n) cs
AllFit n panicked = n < 5
AllFit n out_of_fuel = Unit

split_message-AllFit : (fuel n : ℕ) (content : Text) → AllFit n (split_message fuel n content)
unfolding split_message
split_message-AllFit zero n content = tt
split_message-AllFit (suc fuel) n content =
    go (round n content) (round-Fits n content) (λ rest. split_message-AllFit fuel n rest)
  where
    add : (c : Text) (r : Result) → length c ≤ n → AllFit n r → AllFit n (add_chunk c r)
    add c (chunks cs) h k = (h, k)
    add c panicked h k = k
    add c out_of_fuel h k = tt

    go :
        (r : Round)
        → Fits n r
        → ((rest : Text) → AllFit n (split_message fuel n rest))
        → AllFit n (elim r as (λ _. Result) [
          | stop last ↦ last_chunk last
          | panic ↦ panicked
          | emit chunk rest ↦ add_chunk chunk (split_message fuel n rest)
        ])
    go (stop none) f ih = tt
    go (stop (some c)) f ih = (f, tt)
    go (emit c rest) f ih = add c (split_message fuel n rest) f (ih rest)
    go panic f ih = f

-- Every chunk that `SplitMessage` returns has at most `max_len` bytes, for every limit and text.
pub split_message-bounded :
    (fuel max_len : ℕ) (content : Text) (cs : List Text)
    → split_message fuel max_len content ≡ chunks cs
    → All (λ c. length c ≤ max_len) cs
split_message-bounded fuel n content cs e = subst (AllFit n) e (split_message-AllFit fuel n content)

-- With a limit of at least 5 no slice of `SplitMessage` is out of range, for every text and after any
-- number of rounds.
pub split_message-in_range :
    (fuel max_len : ℕ) (content : Text)
    → 5 ≤ max_len
    → split_message fuel max_len content ≢ panicked
split_message-in_range fuel n content h =
    λ e. absurd (omega (arith, subst (AllFit n) e (split_message-AllFit fuel n content)))
