-- ===== src/Bus/Steps.antt =====
-- pkg/bus/bus.go: publishers, consumers and `Close` on one direction of the bus, interleaved.
use elvis.Base.{
  ℕ, zero, suc, ◌≤◌, ◌≢◌, ◌≡◌, refl, sym, ap, ap₂, subst, ◌∙◌, ◌⊎◌, inl, inr, Bool, true, false,
  List, [], ◌∷◌, ◌++◌, append_assoc, append-nil, Option, none, some, length, length-append, ltb,
  is_nil, if◌then◌else◌, arith,
}
use elvis.Bus.{Channel, Sent, sent, blocked, panicked, capacity, send, receive, close}

-- One direction of the bus. `waiting` are the messages of the publishers that hold the read lock, and
-- `accepted` and `taken` are the messages that went in and that consumers got, in order.
pub record Direction (A : Type 0) : Type 0 where
  pub channel : Channel A
  pub waiting : List A
  pub accepted : List A
  pub taken : List A

module _ {A : Type 0} (blank : A) where
  pub data Step : Direction A → Direction A → Type 0 where
    -- A publisher takes the read lock and finds the bus open.
    enters :
        (x : A) (d : Direction A)
        → d.channel.closed ≡ false
        → Step d (record d { waiting = x ∷ d.waiting })
    -- A publisher that holds the lock gets its message into the channel and leaves.
    delivers :
        (x : A) (before after : List A) (d : Direction A) (ch : Channel A)
        → d.waiting ≡ before ++ x ∷ after
        → send x d.channel ≡ sent ch
        → Step d
            (record d { channel = ch; waiting = before ++ after; accepted = d.accepted ++ x ∷ [] })
    -- A consumer receives.
    takes :
        (x : A) (d : Direction A) (ch : Channel A)
        → receive blank d.channel ≡ some (x, ch)
        → Step d (record d { channel = ch; taken = d.taken ++ x ∷ [] })
    -- `Close` gets the write lock once no publisher holds the read lock.
    closes :
        (d : Direction A)
        → is_nil d.waiting ≡ true
        → Step d (record d { channel = close d.channel })

  pub data Reach (s : Direction A) : Direction A → Type 0 where
    here : Reach s s
    next : {t u : Direction A} → Reach s t → Step t u → Reach s u

-- As `NewMessageBus` makes it.
abbrev pub fresh : {A : Type 0} → Direction A
fresh = record {
  channel = record { buffer = []; closed = false };
  waiting = [];
  accepted = [];
  taken = [];
}

abbrev zeros {ℓ} : {A : Type ℓ} → A → ℕ → List A
zeros x zero = []
zeros x (suc n) = x ∷ zeros x n

zeros_snoc {ℓ} : {A : Type ℓ} (x : A) (n : ℕ) → zeros x n ++ x ∷ [] ≡ zeros x (suc n)
zeros_snoc x zero = refl
zeros_snoc x (suc n) = ap (λ xs. x ∷ xs) (zeros_snoc x n)

module _ {A : Type 0} (blank : A) where
  -- What consumers got, followed by what the channel holds, is what was accepted, in order; behind it
  -- are `n` zero values, none before the close.
  abbrev pub Kept : Direction A → Type 0
  Kept d =
      (n : ℕ) × (d.taken ++ d.channel.buffer ≡ d.accepted ++ zeros blank n)
      × ((d.channel.closed ≡ true) ⊎ (n ≡ 0))

  -- The channel is within its capacity, and after the close no publisher is left.
  abbrev Sound : Direction A → Type 0
  Sound d =
      (length d.channel.buffer ≤ capacity)
      × ((d.channel.closed ≡ false) ⊎ (is_nil d.waiting ≡ true))

  abbrev Good : Direction A → Type 0
  Good d = Kept d × Sound d

  send-cases :
      (x : A) (ch ch' : Channel A)
      → send x ch ≡ sent ch'
      → (ch.closed ≡ false)
        × (length ch'.buffer ≤ capacity)
        × (ch' ≡ record ch { buffer = ch.buffer ++ x ∷ [] })
  unfolding send
  send-cases x ch ch' e = go ch.closed refl (ltb (length ch.buffer) capacity) refl e
    where
      more : Channel A
      more = record ch { buffer = ch.buffer ++ x ∷ [] }

      result : Sent A → Channel A
      result s = elim s [ sent c ↦ c | blocked ↦ ch | panicked ↦ ch ]

      go :
          (c : Bool)
          → ch.closed ≡ c
          → (b : Bool) → ltb (length ch.buffer) capacity ≡ b
          → (if c then panicked else if b then sent more else blocked) ≡ sent ch'
          → (ch.closed ≡ false) × (length ch'.buffer ≤ capacity) × (ch' ≡ more)
      go true h b k e = absurd (ground arith)
      go false h false k e = absurd (ground arith)
      go false h true k e = (
        h,
        subst (λ c. length c.buffer ≤ capacity) (ap result e)
            (rw (length-append ch.buffer (x ∷ [])) (ground arith)),
        sym (ap result e),
      )

  receive-cases :
      (x : A) (ch ch' : Channel A)
      → receive blank ch ≡ some (x, ch')
      → ((ch.buffer ≡ x ∷ ch'.buffer) × (ch'.closed ≡ ch.closed))
        ⊎ ((ch.buffer ≡ [])
            × (ch'.buffer ≡ [])
            × (x ≡ blank)
            × (ch.closed ≡ true)
            × (ch'.closed ≡ true))
  unfolding receive
  receive-cases x ch ch' e = go ch.buffer refl ch.closed refl e
    where
      Result : Type 0
      Result = Option (A × Channel A)

      got : Result → A × Channel A
      got r = elim r [ none ↦ (x, ch') | some p ↦ p ]

      one : A → Channel A → Result
      one y c = some (y, c)

      nothing : Result
      nothing = none

      go :
          (buffer : List A)
          → ch.buffer ≡ buffer
          → (c : Bool) → ch.closed ≡ c
          → (elim buffer as (λ _. Result) [
            | y ∷ rest ↦ one y (record ch { buffer = rest })
            | [] ↦ if c then one blank ch else nothing
          ])
            ≡ one x ch'
          → ((ch.buffer ≡ x ∷ ch'.buffer) × (ch'.closed ≡ ch.closed))
            ⊎ ((ch.buffer ≡ [])
                × (ch'.buffer ≡ [])
                × (x ≡ blank)
                × (ch.closed ≡ true)
                × (ch'.closed ≡ true))
      go (y ∷ rest) h c k e = inl (
        h ∙ ap₂ (λ a r. a ∷ r) (ap (λ r. (got r).0) e) (ap (λ r. (got r).1.buffer) e),
        sym (ap (λ r. (got r).1.closed) e),
      )
      go [] h true k e = inr (
        h,
        sym (ap (λ r. (got r).1.buffer) e) ∙ h,
        sym (ap (λ r. (got r).0) e),
        k,
        sym (ap (λ r. (got r).1.closed) e) ∙ k,
      )
      go [] h false k e = absurd (ground arith)

  takes-Kept :
      (x : A) (d : Direction A) (ch : Channel A)
      → receive blank d.channel ≡ some (x, ch)
      → Kept d
      → Kept (record d { channel = ch; taken = d.taken ++ x ∷ [] })
  takes-Kept x d ch e (n, k, c) = elim (receive-cases x d.channel ch e) [
    | inl (front, same) ↦ (
      n,
      append_assoc d.taken (x ∷ []) ch.buffer ∙ ap (λ b. d.taken ++ b) (sym front) ∙ k,
      elim c [ inl h ↦ inl (same ∙ h) | inr h ↦ inr h ],
    )
    | inr (nothing, left, is_zero, shut, shut') ↦ (
      suc n,
      ap₂ (λ y b. (d.taken ++ y ∷ []) ++ b) is_zero left
          ∙ append-nil (d.taken ++ blank ∷ [])
          ∙ ap (λ t. t ++ blank ∷ [])
              (sym (append-nil d.taken) ∙ ap (λ b. d.taken ++ b) (sym nothing) ∙ k)
          ∙ append_assoc d.accepted (zeros blank n) (blank ∷ [])
          ∙ ap (λ z. d.accepted ++ z) (zeros_snoc blank n),
      inl shut',
    )
  ]

  delivers-Kept :
      (x : A) (waiting : List A) (d : Direction A) (ch : Channel A)
      → send x d.channel ≡ sent ch
      → Kept d
      → Kept (record d { channel = ch; waiting = waiting; accepted = d.accepted ++ x ∷ [] })
  delivers-Kept x waiting d ch e (n, k, c) =
      let (closed_before, _, same) = send-cases x d.channel ch e in
      let no_zeros : n ≡ 0 = elim c [ inl h ↦ absurd (ground arith) | inr h ↦ h ] in
      (
        0,
        ap (λ c. d.taken ++ c.buffer) same
            ∙ sym (append_assoc d.taken d.channel.buffer (x ∷ []))
            ∙ ap (λ t. t ++ x ∷ [])
                (k ∙ ap (λ m. d.accepted ++ zeros blank m) no_zeros ∙ append-nil d.accepted)
            ∙ sym (append-nil (d.accepted ++ x ∷ [])),
        inr refl,
      )

  takes-Sound :
      (x : A) (d : Direction A) (ch : Channel A)
      → receive blank d.channel ≡ some (x, ch)
      → Sound d
      → Sound (record d { channel = ch; taken = d.taken ++ x ∷ [] })
  takes-Sound x d ch e (bound, quiet) = elim (receive-cases x d.channel ch e) [
    | inl (front, same) ↦ (
      shorter (length ch.buffer) (subst (λ b. length b ≤ capacity) front bound),
      elim quiet [ inl h ↦ inl (same ∙ h) | inr h ↦ inr h ],
    )
    | inr (nothing, left, is_zero, shut, shut') ↦ (
      subst (λ b. length b ≤ capacity) (sym left) (omega arith),
      elim quiet [ inl h ↦ absurd (ground arith) | inr h ↦ inr h ],
    )
  ]
    where
      shorter : (n : ℕ) → suc n ≤ capacity → n ≤ capacity
      shorter n h = omega arith

  Step-Good : {s t : Direction A} → Step blank s t → Good s → Good t
  Step-Good (enters x d is_open) (kept, (bound, quiet)) = (kept, (bound, inl is_open))
  Step-Good (delivers x before after d ch e f) (kept, (bound, quiet)) =
      let (is_open, small, same) = send-cases x d.channel ch f in
      (
        delivers-Kept x (before ++ after) d ch f kept,
        (small, inl (ap (λ c. c.closed) same ∙ is_open)),
      )
  Step-Good (takes x d ch e) (kept, sound) = (takes-Kept x d ch e kept, takes-Sound x d ch e sound)
  Step-Good (closes d e) ((n, k, c), (bound, quiet)) = ((n, k, inl refl), (bound, inr e))

  Reach-Good : {s t : Direction A} → Reach blank s t → Good s → Good t
  Reach-Good here g = g
  Reach-Good (next r step) g = Step-Good step (Reach-Good r g)

  fresh-Good : Good fresh
  fresh-Good = ((0, refl, inr refl), (omega arith, inr refl))

  -- However publishers, consumers and `Close` interleave: the consumers get the accepted messages, all
  -- of them but those still in the channel, in the order in which they were accepted; after these they
  -- get zero values, and only when the bus is closed; the channel never holds more than 100 messages.
  pub reachable-Kept :
      (d : Direction A) → Reach blank fresh d → Kept d × (length d.channel.buffer ≤ 100)
  reachable-Kept d r = let (kept, sound) = Reach-Good r fresh-Good in (kept, sound.0)

  send-not_panicked : (x : A) (ch : Channel A) → ch.closed ≡ false → send x ch ≢ panicked
  unfolding send
  send-not_panicked x ch h = go ch.closed h (ltb (length ch.buffer) capacity)
    where
      go :
          (c : Bool)
          → c ≡ false
          → (b : Bool)
          → (if c
              then panicked
              else if b
              then sent (record ch { buffer = ch.buffer ++ x ∷ [] })
              else blocked)
            ≢ panicked
      go true h b = absurd (ground arith)
      go false h true = λ e. ground arith
      go false h false = λ e. ground arith

  -- No publisher ever sends on the closed channel, which would panic: at each point the send of every
  -- publisher that waits does not panic.
  pub waiting-not_panicked :
      (d : Direction A)
      → Reach blank fresh d
      → (x : A) (before after : List A) → d.waiting ≡ before ++ x ∷ after
      → send x d.channel ≢ panicked
  waiting-not_panicked d r x before after e = elim (Reach-Good r fresh-Good).1.1 [
    | inl is_open ↦ send-not_panicked x d.channel is_open
    | inr empty ↦ absurd (not_nil before (ap is_nil (sym e) ∙ empty))
  ]
    where
      not_nil : (xs : List A) → is_nil (xs ++ x ∷ after) ≢ true
      not_nil [] = λ h. ground arith
      not_nil (y ∷ xs) = λ h. ground arith
