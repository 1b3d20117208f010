-- ===== src/Providers/Fallback.antt =====
-- pkg/providers/fallback.go: the chain of candidates that a request tries in turn.
-- What the surroundings do is an argument: for each candidate a `Turn` says what the clock, the context
-- and the `run` function answer when its round reads them. The Go closures and the mutable result
-- become a recursion over the candidates with the attempts so far.
pub mod Rounds
pub mod Outcomes
pub mod Skipping
pub mod Candidates
pub mod Images
mod Examples
use elvis.Base.{
  ℕ, Bool, true, false, ◌||◌, ◌⊎◌, inl, inr, List, [], ◌∷◌, ◌++◌, Option, none, some, Text, any,
  text_eq, is_nil, if◌then◌else◌,
}
use elvis.Strings.{Unicode, to_lower}
use elvis.Providers.Types.{
  FailoverReason, rate_limit, format, FailoverError, is_retriable, ModelConfig,
}
use elvis.Providers.Cooldown.{
  CooldownTracker, mark_failure, mark_success, is_available, cooldown_remaining,
}
use elvis.Providers.Classifier.{
  RunError, message, is_image_dimension_error, is_image_size_error, classify_error,
}
use elvis.Providers.ModelRef.{ModelReference, parse_model_ref, model_key}

pub record FallbackCandidate : Type 0 where
  pub provider : Text
  pub model : Text

-- The error of an attempt: the text about the cooldown with the time that remains, the error that `run`
-- returned, or its classification.
pub data AttemptError : Type 0 where
  in_cooldown : ℕ → AttemptError
  raw : RunError → AttemptError
  classified : FailoverError RunError → AttemptError

pub record FallbackAttempt : Type 0 where
  pub provider : Text
  pub model : Text
  pub error : AttemptError
  pub reason : Option FailoverReason
  pub duration : ℕ
  pub skipped : Bool

pub record FallbackResult (R : Type 0) : Type 0 where
  pub response : R
  pub provider : Text
  pub model : Text
  pub attempts : List FallbackAttempt

pub data FallbackError : Type 0 where
  no_candidates : FallbackError
  context_canceled : FallbackError
  unclassified : Text → Text → RunError → FallbackError
  failover : FailoverError RunError → FallbackError
  exhausted : List FallbackAttempt → FallbackError

pub data Outcome (R : Type 0) : Type 0 where
  success : FallbackResult R → Outcome R
  failure : FallbackError → Outcome R

-- What `run` returns.
pub data Reply (R : Type 0) : Type 0 where
  response : R → Reply R
  error : RunError → Reply R

pub record Turn (R : Type 0) : Type 0 where
  -- `ctx.Err() == context.Canceled`, before and after the call of `run`
  pub canceled_before : Bool
  pub canceled_after : Bool
  -- the clock in `IsAvailable`, `CooldownRemaining` and `MarkFailure`
  pub available_at : ℕ
  pub remaining_at : ℕ
  pub failed_at : ℕ
  pub elapsed : ℕ
  pub reply : Reply R

module _ ⦃u : Unicode⦄ where
  -- `seen` holds the keys of the candidates so far.
  unfoldable pub add_candidates :
      List Text → Text → List Text → List FallbackCandidate → List FallbackCandidate
  add_candidates [] default_provider seen out = out
  add_candidates (raw_ref ∷ refs) default_provider seen out =
      elim (parse_model_ref raw_ref default_provider) [
        | none ↦ add_candidates refs default_provider seen out
        | some ref ↦
            let key = model_key ref.provider ref.model in
            elim (any (text_eq key) seen) [
              | true ↦ add_candidates refs default_provider seen out
              | false ↦
                  add_candidates refs default_provider (key ∷ seen)
                    (out ++ record { provider = ref.provider; model = ref.model } ∷ [])
            ]
      ]

  unfoldable pub resolve_candidates : ModelConfig → Text → List FallbackCandidate
  resolve_candidates cfg default_provider =
      add_candidates (cfg.primary ∷ cfg.fallbacks) default_provider [] []

module _ {R : Type 0} where
  unfoldable pub skip_attempt : FallbackCandidate → Turn R → CooldownTracker → FallbackAttempt
  skip_attempt c t ct = record {
    provider = c.provider;
    model = c.model;
    error = in_cooldown (cooldown_remaining t.remaining_at c.provider ct);
    reason = some rate_limit;
    duration = 0;
    skipped = true;
  }

  unfoldable pub failed_attempt :
      FallbackCandidate → Turn R → AttemptError → Option FailoverReason → FallbackAttempt
  failed_attempt c t e r = record {
    provider = c.provider;
    model = c.model;
    error = e;
    reason = r;
    duration = t.elapsed;
    skipped = false;
  }

-- One round of the loop of `Execute`: it goes on with a new tracker and one more attempt, or returns.
pub data Round (R : Type 0) : Type 0 where
  continue : CooldownTracker → FallbackAttempt → Round R
  return : CooldownTracker → Outcome R → Round R

module _ {R : Type 0} ⦃u : Unicode⦄ where
  -- The round once `run` has returned the error `e` and the context is alive.
  unfoldable pub after_error : FallbackCandidate → Turn R → RunError → CooldownTracker → Round R
  unfolding failed_attempt
  after_error c t e ct = elim (classify_error (some e) c.provider c.model) [
    | none ↦ return ct (failure (unclassified c.provider c.model e))
    | some f ↦
        if is_retriable f
        then continue (mark_failure t.failed_at c.provider f.reason ct)
            (failed_attempt c t (classified f) (some f.reason))
        else return ct (failure (failover f))
  ]

  unfoldable pub after_run :
      FallbackCandidate → Turn R → Reply R → CooldownTracker → List FallbackAttempt → Round R
  unfolding after_error
  after_run c t (response r) ct attempts = return (mark_success c.provider ct) (
      success
        (record { response = r; provider = c.provider; model = c.model; attempts = attempts }))
  after_run c t (error e) ct attempts =
      if t.canceled_after then return ct (failure context_canceled) else after_error c t e ct

  unfoldable pub round :
      FallbackCandidate → Turn R → CooldownTracker → List FallbackAttempt → Round R
  unfolding after_run skip_attempt
  round c t ct attempts =
      if t.canceled_before
      then return ct (failure context_canceled)
      else if is_available t.available_at c.provider ct
      then after_run c t t.reply ct attempts
      else continue ct (skip_attempt c t ct)

  -- The loop. The test for the last candidate after a failure returns what the code behind the loop
  -- returns too, so the end of the list stands for both.
  unfoldable pub execute_from :
      List (FallbackCandidate × Turn R)
      → CooldownTracker
      → List FallbackAttempt
      → CooldownTracker × Outcome R
  execute_from [] ct attempts = (ct, failure (exhausted attempts))
  execute_from ((c, t) ∷ rest) ct attempts = elim (round c t ct attempts) [
    | return ct' out ↦ (ct', out)
    | continue ct' attempt ↦ execute_from rest ct' (attempts ++ attempt ∷ [])
  ]

  unfoldable pub execute :
      List (FallbackCandidate × Turn R) → CooldownTracker → CooldownTracker × Outcome R
  execute [] ct = (ct, failure no_candidates)
  execute (c ∷ rest) ct = execute_from (c ∷ rest) ct []

  -- `ExecuteImage` looks at no cooldown and keeps none.
  unfoldable pub image_round :
      FallbackCandidate → Turn R → Reply R → List FallbackAttempt → Outcome R ⊎ FallbackAttempt
  unfolding failed_attempt
  image_round c t (response r) attempts = inl (
      success
        (record { response = r; provider = c.provider; model = c.model; attempts = attempts }))
  image_round c t (error e) attempts =
      if t.canceled_after
      then inl (failure context_canceled)
      else let msg = to_lower (message e) in
        if is_image_dimension_error msg || is_image_size_error msg
        then inl (
            failure (
              failover (record {
                reason = format;
                provider = c.provider;
                model = c.model;
                status = 0;
                wrapped = e;
              })))
        else inr (failed_attempt c t (raw e) none)

  unfoldable pub execute_image_from :
      List (FallbackCandidate × Turn R) → List FallbackAttempt → Outcome R
  unfolding image_round
  execute_image_from [] attempts = failure (exhausted attempts)
  execute_image_from ((c, t) ∷ rest) attempts = elim t.canceled_before [
    | true ↦ failure context_canceled
    | false ↦ elim (image_round c t t.reply attempts) [
      | inl out ↦ out
      | inr attempt ↦ execute_image_from rest (attempts ++ attempt ∷ [])
    ]
  ]

  unfoldable pub execute_image : List (FallbackCandidate × Turn R) → Outcome R
  execute_image [] = failure no_candidates
  execute_image (c ∷ rest) = execute_image_from (c ∷ rest) []
