-- ===== src/Agent/Sanitize.antt =====
-- pkg/agent/context.go: the history after sanitizeHistoryForProvider, against an automaton that reads it
-- once from the front.
use elvis.Base.{
  ◌≡◌, refl, ap, ◌∙◌, Bool, true, false, Option, none, some, List, [], ◌∷◌, Text, text_eq,
  text_eq_iff, if◌then◌else◌, arith,
}
use elvis.Session.{Message}
use elvis.Agent.Context.{
  role_system, role_tool, role_assistant, role_user, has_role, calls_tools, answers_call, may_call,
  keeps, sanitize_from, sanitize_history_for_provider,
}

-- Where a conversation stands: the last message is a user's, an assistant's with tool calls, a tool's, or
-- another one (or there is none).
pub data Phase : Type 0 where
  idle asked called answered : Phase

abbrev pub expects_tool : Phase → Bool
expects_tool called = true
expects_tool answered = true
expects_tool _ = false

abbrev pub expects_call : Phase → Bool
expects_call asked = true
expects_call answered = true
expects_call _ = false

module _ {A : Type 0} where
  -- The phase after a message, `none` if the message must not stand there.
  abbrev pub next : Phase → Message A → Option Phase
  next p m =
      if has_role role_system m
      then none
      else if has_role role_tool m
      then if expects_tool p then some answered else none
      else if has_role role_assistant m
      then if calls_tools m then if expects_call p then some called else none else some idle
      else if has_role role_user m
      then some asked
      else some idle

  -- Whether the automaton accepts a history.
  unfoldable pub accepts : Phase → List (Message A) → Bool
  accepts p [] = true
  accepts p (m ∷ ms) = elim (next p m) [ none ↦ false | some q ↦ accepts q ms ]

  -- What was read, backwards, has led to a phase.
  abbrev Leads : List (Message A) → Phase → Type 0
  Leads before p = (answers_call before ≡ expects_tool p) × (may_call before ≡ expects_call p)

  excludes :
      (r s : Text) (m : Message A)
      → text_eq r s ≡ false
      → has_role r m ≡ true
      → has_role s m ≡ false
  excludes r s m ne e = ap (λ x. text_eq x s) ((text_eq_iff m.role r).0 e) ∙ ne

  -- One message: the automaton goes on where the message is kept, and only there.
  Moves : List (Message A) → Message A → Bool → Option Phase → Type 0
  Moves before m kept none = kept ≡ false
  Moves before m kept (some q) = (kept ≡ true) × Leads (m ∷ before) q

  next-Moves :
      (before : List (Message A)) (p : Phase) (m : Message A)
      → Leads before p
      → Moves before m (keeps before m) (next p m)
  unfolding Moves keeps answers_call may_call text_eq
  next-Moves before p m (a, c) =
      go (has_role role_system m) refl (has_role role_tool m) refl (has_role role_assistant m) refl
        (has_role role_user m) refl (calls_tools m) refl (expects_tool p) refl (expects_call p) refl
    where
      Goal : Bool → Option Phase → Type 0
      Goal = Moves before m

      go :
          (s : Bool)
          → has_role role_system m ≡ s
          → (t : Bool) → has_role role_tool m ≡ t
          → (g : Bool) → has_role role_assistant m ≡ g
          → (u : Bool) → has_role role_user m ≡ u
          → (k : Bool) → calls_tools m ≡ k
          → (x : Bool) → expects_tool p ≡ x
          → (y : Bool) → expects_call p ≡ y
          → Goal
              (if s
                then false
                else if t
                then answers_call before
                else if g
                then if k then may_call before else true
                else true)
              (if s
                then none
                else if t
                then if x then some answered else none
                else if g
                then if k then if y then some called else none else some idle
                else if u
                then some asked
                else some idle)
      go true e t f g h u i k j x l y n = refl
      go false e true f g h u i k j true l y n =
          (a ∙ l, rw f (a ∙ l, rw (excludes role_tool role_user m refl f) refl))
      go false e true f g h u i k j false l y n = a ∙ l
      go false e false f true h u i true j x l true n =
          (c ∙ n, rw (f, h, j, excludes role_assistant role_user m refl h) (refl, refl))
      go false e false f true h u i true j x l false n = c ∙ n
      go false e false f true h u i false j x l y n =
          (refl, rw (f, h, j, excludes role_assistant role_user m refl h) (refl, refl))
      go false e false f false h true i k j x l y n = (refl, rw (f, h, i) (refl, refl))
      go false e false f false h false i k j x l y n = (refl, rw (f, h, i) (refl, refl))

  sanitize_from-accepted :
      (before : List (Message A)) (p : Phase) (history : List (Message A))
      → Leads before p
      → accepts p (sanitize_from before history) ≡ true
  unfolding accepts sanitize_from Moves
  sanitize_from-accepted before p [] l = refl
  sanitize_from-accepted before p (m ∷ ms) l =
      go (keeps before m) refl (next p m) refl (next-Moves before p m l)
        (λ q k. sanitize_from-accepted (m ∷ before) q ms k) (sanitize_from-accepted before p ms l)
    where
      go :
          (b : Bool)
          → keeps before m ≡ b
          → (o : Option Phase) → next p m ≡ o
          → Moves before m b o
          → ((q : Phase) → Leads (m ∷ before) q → accepts q (sanitize_from (m ∷ before) ms) ≡ true)
          → accepts p (sanitize_from before ms) ≡ true
          → accepts p (elim b as (λ _. List (Message A)) [
            | true ↦ m ∷ sanitize_from (m ∷ before) ms
            | false ↦ sanitize_from before ms
          ])
            ≡ true
      go true e (some q) f (_, k) kept rest =
          ap
            (λ o. elim o as (λ _. Bool) [
              | none ↦ false
              | some r ↦ accepts r (sanitize_from (m ∷ before) ms)
            ])
            f
          ∙ kept q k
      go false e (some q) f (k, _) kept rest = absurd (ground arith)
      go true e none f k kept rest = absurd (ground arith)
      go false e none f k kept rest = rest

  sanitize_from-same :
      (before : List (Message A)) (p : Phase) (history : List (Message A))
      → Leads before p
      → accepts p history ≡ true
      → sanitize_from before history ≡ history
  unfolding accepts sanitize_from Moves
  sanitize_from-same before p [] l h = refl
  sanitize_from-same before p (m ∷ ms) l h =
      go (keeps before m) refl (next p m) refl (next-Moves before p m l)
        (λ q k a. sanitize_from-same (m ∷ before) q ms k a) h
    where
      go :
          (b : Bool)
          → keeps before m ≡ b
          → (o : Option Phase) → next p m ≡ o
          → Moves before m b o
          → ((q : Phase)
              → Leads (m ∷ before) q
              → accepts q ms ≡ true
              → sanitize_from (m ∷ before) ms ≡ ms)
          → (elim o as (λ _. Bool) [ none ↦ false | some q ↦ accepts q ms ]) ≡ true
          → (elim b as (λ _. List (Message A)) [
            | true ↦ m ∷ sanitize_from (m ∷ before) ms
            | false ↦ sanitize_from before ms
          ])
            ≡ m ∷ ms
      go true e (some q) f (_, k) rec h = ap (λ xs. m ∷ xs) (rec q k h)
      go false e (some q) f (k, _) rec h = absurd (ground arith)
      go b e none f k rec h = absurd (ground arith)

  sanitize-same :
      (history : List (Message A))
      → accepts idle history ≡ true
      → sanitize_history_for_provider history ≡ history
  unfolding sanitize_history_for_provider answers_call may_call
  sanitize-same history h = sanitize_from-same [] idle history (refl, refl) h

  accepts-sanitize :
      (history : List (Message A)) → accepts idle (sanitize_history_for_provider history) ≡ true
  unfolding sanitize_history_for_provider answers_call may_call
  accepts-sanitize history = sanitize_from-accepted [] idle history (refl, refl)

  -- What is left of a history keeps the rules for tool calls: each tool message comes after an
  -- assistant's message with tool calls, with only tool messages between them; each assistant's message
  -- with tool calls comes directly after a user's or a tool's message; no system message is left. And a
  -- second pass removes nothing more.
  pub sanitize-accepted :
      (history : List (Message A))
      → let sanitized = sanitize_history_for_provider history in
        (accepts idle sanitized ≡ true) × (sanitize_history_for_provider sanitized ≡ sanitized)
  sanitize-accepted history = (
    accepts-sanitize history,
    sanitize-same (sanitize_history_for_provider history) (accepts-sanitize history),
  )
