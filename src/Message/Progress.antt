-- ===== src/Message/Progress.antt =====
-- `SplitMessage` (pkg/utils/message.go) on texts without backticks.
use elvis.Base.{
  ℕ, zero, suc, ◌+◌, ◌≤◌, ◌<◌, ◌≡◌, ◌≢◌, refl, sym, ap, ◌∙◌, inl, inr, true, false, List, [], ◌∷◌,
  ◌++◌, none, Text, length, take, drop, leb, ◌==◌, Bool-cases, if◌then◌else◌, arith, length-drop,
  take-append-drop, append-nil,
}
use elvis.Strings.{trim_space}
use elvis.Strings.Cut.{Lacks}
use elvis.Strings.Ink.{ink, ink-append, ink-trim_space, trim_space-shrinks}
use elvis.Message.{
  is_fence, unclosed_from, find_last_unclosed_code_block, emit, effective_limit, first_end,
  plain_cut, split_long, round, chunks, split_message,
}
use elvis.Message.Scans.{effective_limit_bounds}

-- The printable bytes of some chunks, in order.
abbrev pub inks : List Text → Text
inks [] = []
inks (c ∷ cs) = ink c ++ inks cs

All-drop : (n : ℕ) (s : Text) → Lacks b'`' s → Lacks b'`' (drop n s)
All-drop zero s h = h
All-drop (suc n) [] h = h
All-drop (suc n) (c ∷ s) h = All-drop n s h.1

All-take' : (n : ℕ) (s : Text) → Lacks b'`' s → Lacks b'`' (take n s)
All-take' zero s h = tt
All-take' (suc n) [] h = tt
All-take' (suc n) (c ∷ s) h = (h.0, All-take' n s h.1)

-- Without a backtick no block is open.
no_block : (i last : ℕ) (s : Text) → Lacks b'`' s → unclosed_from i false last s ≡ none
unfolding unclosed_from
no_block i last [] h = refl
no_block i last (a ∷ []) h = refl
no_block i last (a ∷ b ∷ []) h = refl
no_block i last (a ∷ b ∷ c ∷ s) h =
    let other : is_fence a b c ≡ false = ground arith in
    rw (other, unclosed_from) (no_block (i + 1) last (b ∷ c ∷ s) h.1)

split_long-plain :
    (n : ℕ) (content : Text)
    → find_last_unclosed_code_block (take (first_end n content) content) ≡ none
    → split_long n content ≡ plain_cut n content (first_end n content)
unfolding split_long
split_long-plain n content e = rw (e, split_long)

-- A round cuts a piece off a long text without backticks.
round-plain :
    (n : ℕ) (content : Text)
    → Lacks b'`' content
    → 1 ≤ n
    → n < length content
    → (e : ℕ) × (0 < e) × (round n content ≡ emit (take e content) (trim_space (drop e content)))
unfolding round plain_cut
round-plain n [] h k l = absurd (omega arith)
round-plain n (c ∷ s) h k l =
    let content = c ∷ s in
    let end = first_end n content in
    let e = if end == 0 then effective_limit n else end in
    let long : leb (length content) n ≡ false = ground arith in
    (
      e,
      ground (arith, effective_limit_bounds n),
      rw (
        long,
        split_long-plain n content (
            unfold find_last_unclosed_code_block in
            no_block 0 0 (take end content) (All-take' end content h)),
      ),
    )

-- A short text is its own only chunk, and the empty text has none.
split_short :
    (fuel n : ℕ) (content : Text)
    → leb (length content) n ≡ true
    → (cs : List Text) × (split_message (suc fuel) n content ≡ chunks cs) × (inks cs ≡ ink content)
unfolding split_message round ink
split_short fuel n [] h = ([], refl, refl)
split_short fuel n (c ∷ s) h =
    ((c ∷ s) ∷ [], rw (h, split_message, round), append-nil (ink (c ∷ s)))

-- The loop ends, and its chunks hold the printable bytes of the text.
split_from :
    (fuel n : ℕ) (content : Text)
    → length content < fuel
    → 1 ≤ n
    → Lacks b'`' content
    → (cs : List Text) × (split_message fuel n content ≡ chunks cs) × (inks cs ≡ ink content)
unfolding split_message
split_from zero n content h k l = absurd (omega arith)
split_from (suc fuel) n content h k l = elim (Bool-cases (leb (length content) n)) [
  | inl short ↦ split_short fuel n content short
  | inr long ↦
      let (e, pos, r) = round-plain n content l k (ground arith) in
      let rest = trim_space (drop e content) in
      let (lacks, shorter) =
        trim_space-shrinks (λ c. c ≢ b'`') (drop e content) (All-drop e content l) in
      let (cs, done, same) =
        split_from fuel n rest (ground (arith, length-drop e content)) k lacks in
      (
        take e content ∷ cs,
        rw (r, done, split_message),
        ap (◌++◌ (ink (take e content))) (same ∙ ink-trim_space (drop e content))
            ∙ sym (ink-append (take e content) (drop e content))
            ∙ ap ink (take-append-drop e content),
      )
]

-- A text without backticks is split, for every limit but 0, after at most as many rounds as it has
-- bytes and one: and the chunks hold all its printable ASCII bytes, each once and in order.
pub split_message-total :
    (max_len : ℕ) (content : Text)
    → 1 ≤ max_len
    → Lacks b'`' content
    → (cs : List Text) × (split_message (suc (length content)) max_len content ≡ chunks cs)
      × (inks cs ≡ ink content)
split_message-total n content h l = split_from (suc (length content)) n content (omega arith) h l
