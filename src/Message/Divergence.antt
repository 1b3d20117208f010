-- ===== src/Message/Divergence.antt =====
-- A class of texts on which the loop of `SplitMessage` (pkg/utils/message.go) never ends: a code block
-- whose first line is longer than the limit and has no white space. The line is taken for the block's
-- header, and each round puts all of it in front of the rest again.
use elvis.Base.{
  ℕ, zero, suc, ◌+◌, ◌-◌, ◌≤◌, ◌<◌, ◌≡◌, ◌≢◌, refl, sym, ap, subst, ◌∙◌, ◌⊎◌, true, false, ◌&&◌, [],
  ◌∷◌, ◌++◌, append_assoc, some, Text, codes, length, take, drop, All, All-take, ltb, leb, arith,
  length-drop, length-append, take_of_length,
}
use elvis.Strings.{trim_space}
use elvis.Strings.Trim.{IsInk, trim_space-ink}
use elvis.Strings.Cut.{Lacks}
use elvis.Strings.Keep.{trim_space-keep}
use elvis.Message.{
  scan_back, find_last_newline, find_last_space, unclosed_from, find_last_unclosed_code_block,
  find_next_closing_code_block, or_zero, effective_limit, natural_end, first_end, inject, header,
  header_end, split_before, split_block, split_long, round, out_of_fuel, add_chunk, split_message,
}
use elvis.Message.Scans.{effective_limit_bounds}
use elvis.Message.PlainLines.{
  All-drop, take-append, drop-append, IsPlain, natural_end-ink, block_open, closing_behind,
  index_newline-append, take-append, drop-append, plain-IsInk, plain-Lacks,
}

-- A text that opens a code block with `line` behind the fence.
abbrev pub opening : Text → Text
opening line = codes "```" ++ line

abbrev pub block : Text → Text → Text
block line tail = opening line ++ 10 ∷ tail

opening-IsInk : (line : Text) → All IsPlain line → All IsInk (opening line)
opening-IsInk line h =
    let tick : IsInk b'`' = ground arith in (tick, (tick, (tick, plain-IsInk line h)))

limit_split : (n : ℕ) → 6 ≤ n → effective_limit n ≡ suc (suc (suc (effective_limit n - 3)))
limit_split n h = omega (arith, effective_limit_bounds n)

module _ (n : ℕ) (line tail : Text) (large : 6 ≤ n) (long : n ≤ length line)
    (plain : All IsPlain line) where
  first_end-block : first_end n (block line tail) ≡ effective_limit n
  unfolding first_end
  first_end-block =
      let within : effective_limit n ≤ length (opening line) =
        omega (arith, effective_limit_bounds n) in
      let none_natural : natural_end (take (effective_limit n) (block line tail)) ≡ 0 =
        ap natural_end (take-append (effective_limit n) (opening line) (10 ∷ tail) within)
        ∙ natural_end-ink (take (effective_limit n) (opening line))
            (All-take IsInk (effective_limit n) (opening line) (opening-IsInk line plain)) in
      rw (none_natural, first_end) refl

  unclosed-block :
      find_last_unclosed_code_block (take (effective_limit n) (block line tail)) ≡ some 0
  unfolding find_last_unclosed_code_block unclosed_from
  unclosed-block =
      let k = effective_limit n - 3 in
      let short : k ≤ length line = omega (arith, effective_limit_bounds n) in
      rw (limit_split n large) (
        ap (λ s. unclosed_from 3 true 0 s) (take-append k line (10 ∷ tail) short)
        ∙ block_open 3 0 (take k line) (All-take (λ c. c ≢ b'`') k line (plain-Lacks line plain)))

  closing-block :
      (or_zero (find_next_closing_code_block (block line tail) (effective_limit n)) ≡ 0)
      ⊎ (n < or_zero (find_next_closing_code_block (block line tail) (effective_limit n)))
  unfolding find_next_closing_code_block
  closing-block =
      let e = effective_limit n in
      let within : e ≤ length (opening line) = omega (arith, effective_limit_bounds n) in
      let behind : Lacks b'`' (drop e (opening line)) =
        rw (limit_split n large) (All-drop (λ c. c ≢ b'`') (e - 3) line (plain-Lacks line plain)) in
      rw (drop-append e (opening line) (10 ∷ tail) within, find_next_closing_code_block)
        (ground (
          arith,
          closing_behind e (drop e (opening line)) (10 ∷ tail) behind,
          length-drop e (opening line),
        ))

  header_end-block : header_end (block line tail) 0 ≡ length line + 3
  unfolding header_end
  header_end-block =
      rw (index_newline-append 0 (opening line) tail (opening-IsInk line plain), header_end)
        (omega arith)

  header-block : header (block line tail) 0 ≡ opening line
  unfolding header
  header-block =
      let all_of_it : header_end (block line tail) 0 - 0 ≡ length (opening line) =
        omega (arith, header_end-block) in
      ap (λ k. trim_space (take k (block line tail))) all_of_it
      ∙ ap trim_space (take_of_length (opening line) (10 ∷ tail))
      ∙ trim_space-ink (opening line) (opening-IsInk line plain)

  split_before-block :
      split_before n (block line tail) 0 ≡ inject (block line tail) (opening line) (n - 5)
  unfolding split_before natural_end find_last_newline find_last_space scan_back
  split_before-block =
      let wide : ltb n 5 ≡ false = ground arith in rw (wide, header-block, split_before) refl

  split_block-block :
      split_block n (block line tail) (effective_limit n) 0 ≡ split_before n (block line tail) 0
  unfolding split_block
  split_block-block =
      let closing = or_zero (find_next_closing_code_block (block line tail) (effective_limit n)) in
      let far : (ltb 0 closing && leb closing n) ≡ false = ground (arith, closing-block) in
      let short : ltb (header_end (block line tail) 0 + 20) (effective_limit n) ≡ false =
        ground (arith, header_end-block, effective_limit_bounds n) in
      rw (far, short, split_block) refl

  split_long-block :
      split_long n (block line tail) ≡ inject (block line tail) (opening line) (n - 5)
  unfolding split_long
  split_long-block =
      rw (first_end-block, unclosed-block, split_long)
        (ap (λ e. split_block n (block line tail) e 0) first_end-block
          ∙ split_block-block
          ∙ split_before-block)

  round-block : round n (block line tail) ≡ inject (block line tail) (opening line) (n - 5)
  unfolding round
  round-block =
      let too_long : leb (length (block line tail)) n ≡ false =
        ground (arith, length-append (opening line) (10 ∷ tail)) in
      rw (too_long, round) split_long-block

-- The last byte of a line that is not empty.
unsnoc : (c : ℕ) (s : Text) → (p : Text) × (b : ℕ) × (c ∷ s ≡ p ++ b ∷ [])
unsnoc c [] = ([], c, refl)
unsnoc c (d ∷ s) = let (p, b, e) = unsnoc d s in (c ∷ p, b, ap (λ x. c ∷ x) e)

-- What is left after a round is a text of the same form.
rest-block :
    (k : ℕ) (p : Text) (b : ℕ) (tail : Text)
    → k ≤ length p + 3
    → IsInk b
    → (tail' : Text) × (trim_space (opening (p ++ b ∷ []) ++ 10 ∷ drop k (block (p ++ b ∷ []) tail))
        ≡ block (p ++ b ∷ []) tail')
rest-block k p b tail h ink_b =
    let y = drop k (opening p) in
    let dropped : drop k (block (p ++ b ∷ []) tail) ≡ y ++ b ∷ 10 ∷ tail =
      ap (λ x. drop k (opening x)) (append_assoc p (b ∷ []) (10 ∷ tail))
      ∙ drop-append k (opening p) (b ∷ 10 ∷ tail) (omega arith) in
    let head = opening (p ++ b ∷ []) ++ 10 ∷ y in
    let (t, kept) =
      trim_space-keep b'`' (b'`' ∷ b'`' ∷ (p ++ b ∷ []) ++ 10 ∷ y) b (10 ∷ tail) (ground arith)
        ink_b in
    (
      y ++ b ∷ t,
      ap (λ x. trim_space (opening (p ++ b ∷ []) ++ 10 ∷ x)) dropped
          ∙ ap trim_space (sym (append_assoc (opening (p ++ b ∷ [])) (10 ∷ y) (b ∷ 10 ∷ tail)))
          ∙ kept
          ∙ append_assoc (opening (p ++ b ∷ [])) (10 ∷ y) (b ∷ t),
    )

rest-block_of :
    (k : ℕ) (line tail : Text)
    → 1 ≤ length line
    → k ≤ length line
    → All IsPlain line
    → (tail' : Text) × (trim_space (opening line ++ 10 ∷ drop k (block line tail))
        ≡ block line tail')
rest-block_of k [] tail one h plain = absurd (omega arith)
rest-block_of k (c ∷ s) tail one h plain =
    let (p, b, e) = unsnoc c s in
    let last : All IsPlain (p ++ b ∷ []) = subst (All IsPlain) e plain in
    let same : length (c ∷ s) ≡ length p + 1 = ap length e ∙ length-append p (b ∷ []) in
    subst
      (λ l. (tail' : Text) × (trim_space (opening l ++ 10 ∷ drop k (block l tail)) ≡ block l tail'))
      (sym e) (rest-block k p b tail (omega arith) (last_of p b last))
  where
    last_of : (p : Text) (b : ℕ) → All IsPlain (p ++ b ∷ []) → IsInk b
    last_of [] b h = h.0.0
    last_of (x ∷ p) b h = last_of p b h.1

-- At a limit of 6 bytes or more, a block whose first line is at least as long as the limit and consists of
-- printable ASCII bytes without white space and backticks is never split to the end, whatever stands
-- behind the line: after any number of rounds the loop goes on.
pub split_message-diverges :
    (fuel max_len : ℕ) (line tail : Text)
    → 6 ≤ max_len
    → max_len ≤ length line
    → All IsPlain line
    → split_message fuel max_len (block line tail) ≡ out_of_fuel
unfolding split_message inject
split_message-diverges zero n line tail large long plain = refl
split_message-diverges (suc fuel) n line tail large long plain =
    let (tail', rest) = rest-block_of (n - 5) line tail (omega arith) (omega arith) plain in
    rw (round-block n line tail large long plain, split_message)
      (ap (add_chunk _) (
        ap (split_message fuel n) rest ∙ split_message-diverges fuel n line tail' large long plain))
