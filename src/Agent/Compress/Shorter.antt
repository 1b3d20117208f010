-- ===== src/Agent/Compress/Shorter.antt =====
-- pkg/agent/loop.go (forceCompression): what is left of a history.
use elvis.Base.{
  sym, Bool, true, false, not, Bool-cases, Option-cases, inl, inr, none, Text, lookup,
  lookup-insert_self, leb, if◌then◌else◌, ℕ, zero, suc, ◌+◌, ◌-◌, ◌/◌, ◌≤◌, ◌≡◌, refl, ap, ◌∙◌,
  List, [], ◌∷◌, ◌++◌, length, take, drop, length-take, length-drop, take-append-drop, arith,
}
use elvis.Session.{Message, SessionManager, get_history, set_history}
use elvis.Agent.Compress.{with_note, compress_history, force_compression}

drop-take-append {ℓ} :
    {A : Type ℓ} (k n : ℕ) (xs : List A) → k ≤ n → drop k (take n xs) ++ drop n xs ≡ drop k xs
drop-take-append zero n xs h = take-append-drop n xs
drop-take-append (suc k) zero xs h = absurd (omega arith)
drop-take-append (suc k) (suc n) [] h = refl
drop-take-append (suc k) (suc n) (x ∷ xs) h = drop-take-append k n xs (omega arith)

module _ {A : Type 0} where
  -- The number of messages that are dropped: half of those between the first and the last.
  abbrev pub dropped : List (Message A) → ℕ
  dropped rest = (length rest - 1) / 2

  middle : (rest : List (Message A)) → length (take (length rest - 1) rest) ≡ length rest - 1
  middle rest = omega (arith, length-take (length rest - 1) rest)

  compress_history-suffix :
      (first : Message A) (rest : List (Message A))
      → (compress_history (first ∷ rest)
          ≡ with_note (dropped rest) first ∷ drop (dropped rest) rest)
        × (length (compress_history (first ∷ rest)) + dropped rest ≡ length (first ∷ rest))
  unfolding compress_history
  compress_history-suffix first rest = (
    ap (λ ms. with_note mid first ∷ ms) tail
        ∙ ap (λ n. with_note (n / 2) first ∷ drop (n / 2) rest) (middle rest),
    ap (λ n. suc n + dropped rest) (ap length (tail ∙ ap (λ n. drop (n / 2) rest) (middle rest)))
        ∙ omega (arith, length-drop (dropped rest) rest),
  )
    where
      mid : ℕ
      mid = length (take (length rest - 1) rest) / 2

      tail : drop mid (take (length rest - 1) rest) ++ drop (length rest - 1) rest ≡ drop mid rest
      tail = drop-take-append mid (length rest - 1) rest (omega (arith, middle rest))

  -- What a history becomes: one of at most four messages stays; a longer one keeps its first message, with
  -- the note, and loses the first half of those between it and the last.
  abbrev pub compressed : List (Message A) → List (Message A)
  compressed [] = []
  compressed (first ∷ rest) =
      if leb (length (first ∷ rest)) 4
      then first ∷ rest
      else with_note (dropped rest) first ∷ drop (dropped rest) rest

  -- How many messages a compression takes away.
  abbrev pub lost : List (Message A) → ℕ
  lost history = if leb (length history) 4 then 0 else (length history - 2) / 2

  compressed_short : (h : List (Message A)) → leb (length h) 4 ≡ true → h ≡ compressed h
  compressed_short [] e = refl
  compressed_short (first ∷ rest) e = rw e refl

  compressed_long :
      (h : List (Message A)) → leb (length h) 4 ≡ false → compress_history h ≡ compressed h
  compressed_long [] e = absurd (ground arith)
  compressed_long (first ∷ rest) e = rw e ((compress_history-suffix first rest).0)

  length-compressed : (h : List (Message A)) → length (compressed h) + lost h ≡ length h
  length-compressed [] = omega arith
  length-compressed (first ∷ rest) = elim (Bool-cases (leb (length (first ∷ rest)) 4)) [
    | inl e ↦ rw e (omega arith)
    | inr e ↦ rw e (
        let same : (suc (length rest) - 2) / 2 ≡ dropped rest = omega arith in
        rw same (
          ap (λ n. n + dropped rest) (ap length (sym ((compress_history-suffix first rest).0)))
          ∙ (compress_history-suffix first rest).1))
  ]

  short :
      (key : Text) (sm : SessionManager A)
      → lookup key sm.sessions ≡ none
      → leb (length (get_history key sm)) 4 ≡ true
  unfolding get_history
  short key sm e = rw (e, get_history) refl

  replaced :
      (now : ℕ) (key : Text) (h : List (Message A)) (sm : SessionManager A)
      → leb (length (get_history key sm)) 4 ≡ false
      → get_history key (set_history now key h sm) ≡ h
  unfolding get_history set_history lookup
  replaced now key h sm long = elim (Option-cases (lookup key sm.sessions)) [
    | inl e ↦ absurd (ground (arith, long, short key sm e))
    | inr (s, e) ↦
        rw (e, set_history)
          (rw
            (
              lookup-insert_self key (record s { messages = h; updated = now }) sm.sessions,
              get_history,
            )
            refl)
  ]

  -- A compression leaves a history of at most four messages as it is. Of a longer one it keeps the first
  -- message, with the note, and all messages but the first half of those between it and the last, so that
  -- the history is shorter by that half; and it saves the session only then.
  pub force_compression-history :
      (now : ℕ) (key : Text) (sm : SessionManager A)
      → let history = get_history key sm in
        let after = force_compression now key sm in
        (get_history key after.0 ≡ compressed history)
        × (length (get_history key after.0) + lost history ≡ length history)
        × (after.1 ≡ not (leb (length history) 4))
  unfolding force_compression
  force_compression-history now key sm = go (leb (length (get_history key sm)) 4) refl
    where
      pair : SessionManager A → Bool → SessionManager A × Bool
      pair m b = (m, b)

      history : List (Message A)
      history = get_history key sm

      next : SessionManager A
      next = set_history now key (compress_history history) sm

      shorter :
          (h : List (Message A)) → h ≡ compressed history → length h + lost history ≡ length history
      shorter h e = ap (λ l. length l + lost history) e ∙ length-compressed history

      go :
          (b : Bool)
          → leb (length history) 4 ≡ b
          → (get_history key (if b then pair sm false else pair next true).0 ≡ compressed history)
            × (length (get_history key (if b then pair sm false else pair next true).0)
                  + lost history
                ≡ length history)
            × ((if b then pair sm false else pair next true).1 ≡ not b)
      go true e = (compressed_short history e, shorter history (compressed_short history e), refl)
      go false e =
          let done = replaced now key (compress_history history) sm e ∙ compressed_long history e in
          (done, shorter _ done, refl)
