-- ===== src/Providers/Fallback/Outcomes.antt =====
-- What the outcome of `Execute` (pkg/providers/fallback.go) says of the candidates.
use elvis.Base.{
  ◌≡◌, ◌≢◌, refl, sym, ap, subst, ◌∙◌, ◌⊎◌, inl, inr, true, false, List, [], ◌∷◌, ◌++◌,
  append_assoc, append-nil, if◌then◌else◌, arith,
}
use elvis.Strings.{Unicode}
use elvis.Providers.Cooldown.{CooldownTracker, is_available, mark_success}
use elvis.Providers.Classifier.{RunError}
use elvis.Providers.Fallback.{
  FallbackCandidate, FallbackAttempt, FallbackResult, exhausted, Outcome, success, failure, Reply,
  response, error, Turn, Round, continue, return, context_canceled, skip_attempt, after_error,
  after_run, round, execute_from, execute,
}
use elvis.Providers.Fallback.Rounds.{Pair, Steps, done, step, Round-cases, round-Step}

module _ {R : Type 0} ⦃u : Unicode⦄ where
  -- No round ends in the error that says that every candidate failed.
  abbrev IsExhausted : Outcome R → Type 0
  IsExhausted (failure (exhausted attempts)) = Unit
  IsExhausted _ = ⊥

  after_error-not-IsExhausted :
      (c : FallbackCandidate) (t : Turn R) (e : RunError) (ct : CooldownTracker)
      {ct' : CooldownTracker} {attempts' : List FallbackAttempt}
      → after_error c t e ct ≡ return ct' (failure (exhausted attempts'))
      → ⊥
  unfolding after_error
  after_error-not-IsExhausted c t e ct h = ground arith

  round-not-IsExhausted :
      (c : FallbackCandidate) (t : Turn R) (ct : CooldownTracker) (attempts : List FallbackAttempt)
      {ct' : CooldownTracker} {attempts' : List FallbackAttempt}
      → round c t ct attempts ≡ return ct' (failure (exhausted attempts'))
      → ⊥
  unfolding round after_run
  round-not-IsExhausted c t ct attempts {ct'} {attempts'} h = go t.reply h
    where
      go :
          (reply : Reply R)
          → (if t.canceled_before
              then return ct (failure context_canceled)
              else if is_available t.available_at c.provider ct
              then after_run c t reply ct attempts
              else continue ct (skip_attempt c t ct))
            ≡ return ct' (failure (exhausted attempts'))
          → ⊥
      go (response r) k = ground arith
      go (error e) k = ground (arith, after_error-not-IsExhausted c t e ct)

  returned :
      {r : Round R} {ct ct' : CooldownTracker} {out out' : Outcome R}
      → r ≡ return ct out
      → ◌≡◌ {A = CooldownTracker × Outcome R} (ct, out) (ct', out')
      → r ≡ return ct' out'
  returned e h = cc

  exhausted_from :
      (xs : List (Pair R)) (ct : CooldownTracker) (attempts : List FallbackAttempt)
      {ct' : CooldownTracker} {all_attempts : List FallbackAttempt}
      → execute_from xs ct attempts ≡ (ct', failure (exhausted all_attempts))
      → (new : List FallbackAttempt) × (all_attempts ≡ attempts ++ new) × Steps ct xs new ct'
  unfolding execute_from
  exhausted_from [] ct attempts {ct'} h =
      let same : ct ≡ ct' = ground arith in
      ([], cc (append-nil attempts), subst (λ x. Steps {R = R} ct [] [] x) same done)
  exhausted_from ((c, t) ∷ xs) ct attempts {all_attempts} h =
      elim (Round-cases (round c t ct attempts)) [
        | inr (ct', out, e) ↦ absurd (
            round-not-IsExhausted c t ct attempts {attempts' = all_attempts}
              (returned e (rw (e, execute_from) at h)))
        | inl (ct', a, e) ↦
            let (new, same, steps) =
              exhausted_from xs ct' (attempts ++ a ∷ []) (rw (e, execute_from) at h) in
            (
              a ∷ new,
              same ∙ append_assoc attempts (a ∷ []) new,
              step (round-Step c t ct attempts e) steps,
            )
      ]

  -- Where the chain returns before its last candidate, what stands behind is not looked at.
  early_from :
      (xs ys : List (Pair R)) (ct : CooldownTracker) (attempts : List FallbackAttempt)
      → ((execute_from (xs ++ ys) ct attempts) ≡ execute_from xs ct attempts)
        ⊎ ((ct' : CooldownTracker) × (all_attempts : List FallbackAttempt) × (execute_from xs ct
                attempts
              ≡ (ct', failure (exhausted all_attempts))))
  unfolding execute_from
  early_from [] ys ct attempts = inr (ct, attempts, refl)
  early_from ((c, t) ∷ xs) ys ct attempts = elim (Round-cases (round c t ct attempts)) [
    | inr (ct', out, e) ↦ inl (rw (e, execute_from))
    | inl (ct', a, e) ↦ rw (e, execute_from) (early_from xs ys ct' (attempts ++ a ∷ []))
  ]

  -- What the loop returned with a response has done.
  pub record Succeeded (ct : CooldownTracker) (xs : List (Pair R)) (attempts : List FallbackAttempt)
      (res : FallbackResult R) (ct' : CooldownTracker) : Type 0 where
    pub before : List (Pair R)
    pub candidate : FallbackCandidate
    pub turn : Turn R
    pub after : List (Pair R)
    pub tracker : CooldownTracker
    pub new : List FallbackAttempt
    pub split : xs ≡ before ++ (candidate, turn) ∷ after
    pub steps : Steps ct before new tracker
    pub recorded : res.attempts ≡ attempts ++ new
    pub replied : turn.reply ≡ response res.response
    pub alive : turn.canceled_before ≡ false
    pub available : is_available turn.available_at candidate.provider tracker ≡ true
    pub provider : res.provider ≡ candidate.provider
    pub model : res.model ≡ candidate.model
    pub marked : ct' ≡ mark_success candidate.provider tracker

  after_error-not-success :
      (c : FallbackCandidate) (t : Turn R) (e : RunError) (ct : CooldownTracker)
      {ct' : CooldownTracker} {res : FallbackResult R}
      → after_error c t e ct ≡ return ct' (success res)
      → ⊥
  unfolding after_error
  after_error-not-success c t e ct h = ground arith

  after_run-success :
      (c : FallbackCandidate) (t : Turn R) (reply : Reply R) (ct : CooldownTracker)
      (attempts : List FallbackAttempt) {ct' : CooldownTracker} {res : FallbackResult R}
      → after_run c t reply ct attempts ≡ return ct' (success res)
      → (reply ≡ response res.response)
        × (res.provider ≡ c.provider)
        × (res.model ≡ c.model)
        × (res.attempts ≡ attempts)
        × (ct' ≡ mark_success c.provider ct)
  unfolding after_run
  after_run-success c t (response r) ct attempts h = ground arith
  after_run-success c t (error e) ct attempts h =
      absurd (ground (arith, after_error-not-success c t e ct))

  round-success :
      (c : FallbackCandidate) (t : Turn R) (ct : CooldownTracker) (attempts : List FallbackAttempt)
      {ct' : CooldownTracker} {res : FallbackResult R}
      → round c t ct attempts ≡ return ct' (success res)
      → (t.canceled_before ≡ false)
        × (is_available t.available_at c.provider ct ≡ true)
        × (after_run c t t.reply ct attempts ≡ return ct' (success res))
  unfolding round
  round-success c t ct attempts h = ground arith

  success_from :
      (xs : List (Pair R)) (ct : CooldownTracker) (attempts : List FallbackAttempt)
      {ct' : CooldownTracker} {res : FallbackResult R}
      → execute_from xs ct attempts ≡ (ct', success res)
      → Succeeded ct xs attempts res ct'
  unfolding execute_from
  success_from [] ct attempts h = absurd (ground arith)
  success_from ((c, t) ∷ xs) ct attempts {ct'} {res} h =
      elim (Round-cases (round c t ct attempts)) [
        | inr (ct₁, out, e) ↦
            let (alive, available, ran) =
              round-success c t ct attempts (returned e (rw (e, execute_from) at h)) in
            let (replied, provider, model, recorded, marked) =
              after_run-success c t t.reply ct attempts ran in
            record {
              before = [];
              candidate = c;
              turn = t;
              after = xs;
              tracker = ct;
              new = [];
              split = refl;
              steps = done;
              recorded = recorded ∙ sym (append-nil attempts);
              replied = replied;
              alive = alive;
              available = available;
              provider = provider;
              model = model;
              marked = marked;
            }
        | inl (ct₁, a, e) ↦
            let s = success_from xs ct₁ (attempts ++ a ∷ []) (rw (e, execute_from) at h) in
            record {
              before = (c, t) ∷ s.before;
              candidate = s.candidate;
              turn = s.turn;
              after = s.after;
              tracker = s.tracker;
              new = a ∷ s.new;
              split = ap (◌∷◌ (c, t)) s.split;
              steps = step (round-Step c t ct attempts e) s.steps;
              recorded = s.recorded ∙ append_assoc attempts (a ∷ []) s.new;
              replied = s.replied;
              alive = s.alive;
              available = s.available;
              provider = s.provider;
              model = s.model;
              marked = s.marked;
            }
      ]

-- When `Execute` returns a response, it is the answer of `run` for one of the candidates, whose
-- provider and model the result names. Each candidate before it was skipped, since its provider was in
-- cooldown, or failed with a retriable error and was marked; the result lists these attempts in order.
-- In the tracker behind them the candidate's provider is available, and it has been cleared at the end.
pub execute-Succeeded :
    {R : Type 0} ⦃u : Unicode⦄ (xs : List (FallbackCandidate × Turn R)) (ct : CooldownTracker)
    {ct' : CooldownTracker} {res : FallbackResult R}
    → execute xs ct ≡ (ct', success res)
    → Succeeded ct xs [] res ct'
unfolding execute
execute-Succeeded [] ct h = absurd (ground arith)
execute-Succeeded (x ∷ xs) ct h = success_from (x ∷ xs) ct [] h

-- When `Execute` returns the error that all candidates failed, it lists one attempt for each of them,
-- in order: skipped, since the provider was in cooldown, or failed with an error that the classifier
-- calls retriable. The tracker at the end is the one with these failures marked, and no others.
pub execute-exhausted :
    {R : Type 0} ⦃u : Unicode⦄ (xs : List (FallbackCandidate × Turn R)) (ct : CooldownTracker)
    {ct' : CooldownTracker} {attempts : List FallbackAttempt}
    → execute xs ct ≡ (ct', failure (exhausted attempts))
    → Steps ct xs attempts ct'
unfolding execute
execute-exhausted [] ct h = absurd (ground arith)
execute-exhausted (x ∷ xs) ct {attempts} h =
    let (new, same, steps) = exhausted_from (x ∷ xs) ct [] h in rw same steps

-- A chain that ends in anything but the error that all candidates failed gives the same outcome and
-- the same tracker whatever candidates follow: a response, a cancellation or an error that is not
-- retriable ends the chain at once.
pub execute_early :
    {R : Type 0} ⦃u : Unicode⦄ (x : FallbackCandidate × Turn R)
    (xs ys : List (FallbackCandidate × Turn R)) (ct : CooldownTracker)
    → ((attempts : List FallbackAttempt) → (execute (x ∷ xs) ct).1 ≢ failure (exhausted attempts))
    → execute (x ∷ xs ++ ys) ct ≡ execute (x ∷ xs) ct
unfolding execute
execute_early x xs ys ct h = elim (early_from (x ∷ xs) ys ct []) [
  | inl same ↦ same
  | inr (ct', all_attempts, e) ↦ absurd (h all_attempts (ap (λ r. r.1) e))
]
