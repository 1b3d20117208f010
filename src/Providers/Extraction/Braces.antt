-- ===== src/Providers/Extraction/Braces.antt =====
-- pkg/providers/tool_call_extract.go: a block of balanced braces is taken out of the text as a whole.
use elvis.Base.{
  ℕ, zero, suc, ◌+◌, ◌-◌, ◌≢◌, ◌≡◌, refl, ap, ◌∙◌, false, List, [], ◌∷◌, ◌++◌, append_assoc, none,
  some, Text, length, length-append, take, take_of_length, drop, ◌==◌, pos, arith,
}
use elvis.Strings.{trim_space}
use elvis.Providers.Extraction.{
  index, marker, slice, next_depth, is_zero, matching_from, find_matching_brace, Decoder,
  decode_calls, extract_tool_calls_from_text, strip_tool_calls_from_text,
}

-- A text in which every brace has its partner.
pub data Balanced : Text → Type 0 where
  empty : Balanced []
  plain : (c : ℕ) (s : Text) → c ≢ b'{' → c ≢ b'}' → Balanced s → Balanced (c ∷ s)
  braces : (s t : Text) → Balanced s → Balanced t → Balanced (b'{' ∷ s ++ b'}' ∷ t)

-- A plain byte is passed.
step-plain :
    (c n i : ℕ) (s : Text)
    → c ≢ b'{'
    → c ≢ b'}'
    → matching_from (pos (suc n)) i (c ∷ s) ≡ matching_from (pos (suc n)) (suc i) s
unfolding matching_from next_depth
step-plain c n i s o h = ground arith

-- A closing brace that is not the last one is passed.
step-close :
    (n i : ℕ) (s : Text)
    → matching_from (pos (suc (suc n))) i (b'}' ∷ s) ≡ matching_from (pos (suc n)) (suc i) s
unfolding matching_from next_depth is_zero
step-close n i s = refl

step-open :
    (n i : ℕ) (s : Text)
    → matching_from (pos n) i (b'{' ∷ s) ≡ matching_from (pos (suc n)) (suc i) s
unfolding matching_from next_depth is_zero
step-open zero i s = refl
step-open (suc n) i s = refl

-- Inside a block, a balanced text is passed.
pass :
    (s : Text)
    → Balanced s
    → (n i : ℕ) (rest : Text)
    → matching_from (pos (suc n)) i (s ++ rest) ≡ matching_from (pos (suc n)) (length s + i) rest
pass _ empty n i rest = ap (λ k. matching_from (pos (suc n)) k rest) (omega arith)
pass _ (plain c s o h b) n i rest =
    step-plain c n i (s ++ rest) o h
    ∙ pass s b n (suc i) rest
    ∙ ap (λ k. matching_from (pos (suc n)) k rest) (omega arith)
pass _ (braces s t b d) n i rest =
    step-open (suc n) i ((s ++ b'}' ∷ t) ++ rest)
    ∙ ap (matching_from (pos (suc (suc n))) (suc i)) (append_assoc s (b'}' ∷ t) rest)
    ∙ pass s b (suc n) (suc i) (b'}' ∷ t ++ rest)
    ∙ step-close n (length s + suc i) (t ++ rest)
    ∙ pass t d n (suc (length s + suc i)) rest
    ∙ ap (λ k. matching_from (pos (suc n)) k rest) (omega (arith, length-append s (b'}' ∷ t)))

matching_from-block :
    (s : Text)
    → Balanced s
    → (i : ℕ) (rest : Text)
    → matching_from (pos 0) i (b'{' ∷ s ++ b'}' ∷ rest) ≡ some (suc (length s + suc i))
unfolding matching_from next_depth is_zero
matching_from-block s b i rest = step-open 0 i (s ++ b'}' ∷ rest) ∙ pass s b 0 (suc i) (b'}' ∷ rest)

drop-length {ℓ} : {A : Type ℓ} (xs ys : List A) → drop (length xs) (xs ++ ys) ≡ ys
drop-length [] ys = refl
drop-length (x ∷ xs) ys = drop-length xs ys

take-block : (s after : Text) → take (suc (length s)) (s ++ b'}' ∷ after) ≡ s ++ b'}' ∷ []
take-block [] after = refl
take-block (c ∷ s) after = ap (λ l. c ∷ l) (take-block s after)

drop-block : (s after : Text) → drop (suc (length s)) (s ++ b'}' ∷ after) ≡ after
drop-block [] after = refl
drop-block (c ∷ s) after = drop-block s after

drop_more {ℓ} : {A : Type ℓ} (n : ℕ) (xs ys : List A) → drop (n + length xs) (xs ++ ys) ≡ drop n ys
drop_more n [] ys = ap (λ k. drop k ys) (omega arith)
drop_more n (x ∷ xs) ys =
    ap (λ k. drop k (x ∷ xs ++ ys))
      (let e : n + suc (length xs) ≡ suc (n + length xs) = omega arith in e)
    ∙ drop_more n xs ys

module _ (before s after : Text) (b : Balanced s) where
  text : Text
  text = before ++ (b'{' ∷ (s ++ (b'}' ∷ after)))

  end : ℕ
  end = suc (suc (length s)) + length before

  find-end : find_matching_brace text (length before) ≡ end
  unfolding find_matching_brace text end
  find-end =
      ap
        (λ t. elim (matching_from (pos 0) (length before) t) as (λ _. ℕ) [
          | none ↦ length before
          | some e ↦ e
        ])
        (drop-length before (b'{' ∷ (s ++ (b'}' ∷ after))))
      ∙ ap (λ o. elim o as (λ _. ℕ) [ none ↦ length before | some e ↦ e ])
          (matching_from-block s b (length before) after)
      ∙ omega arith

  end-after : (end == length before) ≡ false
  unfolding end
  end-after = ground arith

  slice-block : slice text (length before) end ≡ b'{' ∷ (s ++ (b'}' ∷ []))
  unfolding text end
  slice-block =
      ap (take (end - length before)) (drop-length before (b'{' ∷ (s ++ (b'}' ∷ after))))
      ∙ ap (λ k. take k (b'{' ∷ (s ++ (b'}' ∷ after))))
          (let e : suc (suc (length s)) + length before - length before ≡ suc (suc (length s)) =
              omega arith in
            e)
      ∙ ap (λ l. b'{' ∷ l) (take-block s after)

  take-before : take (length before) text ≡ before
  unfolding text
  take-before = take_of_length before (b'{' ∷ (s ++ (b'}' ∷ after)))

  drop-end : drop end text ≡ after
  unfolding text end
  drop-end =
      drop_more (suc (suc (length s))) before (b'{' ∷ (s ++ (b'}' ∷ after))) ∙ drop-block s after

  extract-found :
      {A : Type 0} (json : Decoder A)
      → index text marker ≡ some (length before)
      → extract_tool_calls_from_text json text ≡ decode_calls json (b'{' ∷ (s ++ (b'}' ∷ [])))
  unfolding extract_tool_calls_from_text
  extract-found json h = rw (h, extract_tool_calls_from_text, find-end, end-after, slice-block) refl

  strip-found :
      index text marker ≡ some (length before)
      → strip_tool_calls_from_text text ≡ trim_space (before ++ after)
  unfolding strip_tool_calls_from_text
  strip-found h =
      rw (h, strip_tool_calls_from_text, find-end, end-after, take-before, drop-end) refl

-- When the marker is first found at the start of a block whose braces are balanced, whatever is in it, the
-- calls are those that the whole block, and nothing else of the text, decodes to, and what is left of the
-- text is what stands before and after the block, trimmed.
pub extract-block :
    {A : Type 0} (json : Decoder A) (before s after : Text)
    → Balanced s
    → let text = before ++ (b'{' ∷ (s ++ (b'}' ∷ after))) in
      index text marker ≡ some (length before)
      → (extract_tool_calls_from_text json text ≡ decode_calls json (b'{' ∷ (s ++ (b'}' ∷ []))))
        × (strip_tool_calls_from_text text ≡ trim_space (before ++ after))
unfolding text
extract-block json before s after b h =
    (extract-found before s after b json h, strip-found before s after b h)
