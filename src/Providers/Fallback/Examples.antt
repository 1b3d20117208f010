-- ===== src/Providers/Fallback/Examples.antt =====
-- Chains of the kinds in pkg/providers/fallback_test.go, and the theorems about them at concrete runs.
use elvis.Base.{
  ℕ, ◌≡◌, refl, List, [], ◌∷◌, some, none, false, codes, All, arith, lookup, insert, text_eq,
}
use elvis.Strings.Sample.{ascii_only}
use elvis.Providers.Types.{rate_limit, ModelConfig, is_retriable}
use elvis.Providers.Cooldown.{
  CooldownTracker, new_cooldown_tracker, mark_failure, mark_success, is_available, error_count,
  fail_entry, get_or_create, calculate_standard_cooldown,
}
use elvis.Providers.Classifier.{
  failed_with, classify_error, is_image_dimension_error, is_image_size_error,
}
use elvis.Providers.ModelRef.{parse_model_ref, normalize_provider}
use elvis.Providers.Fallback.{
  FallbackCandidate, FallbackAttempt, FallbackResult, Turn, Reply, response, error, success,
  failure, exhausted, raw, classified, execute, execute_image, resolve_candidates, execute_from,
  round, execute_image_from,
}
use elvis.Providers.Fallback.Outcomes.{Succeeded, execute-Succeeded}
use elvis.Providers.Fallback.Skipping.{execute_other_provider}
use elvis.Providers.Fallback.Candidates.{Distinct, Represented, resolve_candidates-Distinct}
use elvis.Strings.{trim_space, trim_from, space_width, last_space_width, to_lower}

abbrev gpt : FallbackCandidate
gpt = record { provider = codes "openai"; model = codes "gpt-4" }

abbrev llama : FallbackCandidate
llama = record { provider = codes "groq"; model = codes "llama" }

abbrev turn : Reply ℕ → Turn ℕ
turn r = record {
  canceled_before = false;
  canceled_after = false;
  available_at = 1000;
  remaining_at = 1000;
  failed_at = 1000;
  elapsed = 5;
  reply = r;
}

abbrev limited : Reply ℕ
limited = error (failed_with (codes "status: 429 slow down"))

abbrev fresh : CooldownTracker
fresh = new_cooldown_tracker

abbrev one_fails : List (FallbackCandidate × Turn ℕ)
one_fails = (gpt, turn limited) ∷ (llama, turn (response 7)) ∷ []

abbrev both_fail : List (FallbackCandidate × Turn ℕ)
both_fail = (gpt, turn limited) ∷ (llama, turn limited) ∷ []

abbrev cooling : CooldownTracker
cooling = mark_failure 999 (codes "openai") rate_limit new_cooldown_tracker

abbrev rate_limited : FallbackCandidate → FallbackAttempt
rate_limited c = record {
  provider = c.provider;
  model = c.model;
  error = classified (record {
    reason = rate_limit;
    provider = c.provider;
    model = c.model;
    status = 429;
    wrapped = failed_with (codes "status: 429 slow down");
  });
  reason = some rate_limit;
  duration = 5;
  skipped = false;
}

abbrev plainly_failed : FallbackCandidate → FallbackAttempt
plainly_failed c = record {
  provider = c.provider;
  model = c.model;
  error = raw (failed_with (codes "status: 429 slow down"));
  reason = none;
  duration = 5;
  skipped = false;
}

abbrev answer : FallbackResult ℕ
answer = record {
  response = 7;
  provider = codes "groq";
  model = codes "llama";
  attempts = rate_limited gpt ∷ [];
}

abbrev cleared : CooldownTracker
cleared = mark_success (codes "groq") (mark_failure 1000 (codes "openai") rate_limit fresh)

abbrev both_marked : CooldownTracker
both_marked =
    mark_failure 1000 (codes "groq") rate_limit
      (mark_failure 1000 (codes "openai") rate_limit fresh)

second_answers : execute one_fails fresh ≡ (cleared, success answer)
unfolding execute execute_from round is_available lookup new_cooldown_tracker classify_error
    is_retriable mark_failure insert text_eq
second_answers = refl

all_fail :
    execute both_fail fresh
    ≡ (both_marked, failure (exhausted (rate_limited gpt ∷ rate_limited llama ∷ [])))
unfolding execute execute_from round is_available lookup new_cooldown_tracker classify_error
    is_retriable mark_failure insert text_eq
all_fail = refl

is_cooling : is_available 1000 (codes "openai") cooling ≡ false
unfolding is_available lookup mark_failure insert new_cooldown_tracker text_eq fail_entry
    get_or_create calculate_standard_cooldown
is_cooling = refl

parsed_primary :
    parse_model_ref (codes "Claude/opus") (codes "openai")
    ≡ some (record { provider = codes "anthropic"; model = codes "opus" })
unfolding parse_model_ref trim_space trim_from space_width last_space_width normalize_provider
parsed_primary = refl

image_failed :
    execute_image both_fail ≡ failure (exhausted (plainly_failed gpt ∷ plainly_failed llama ∷ []))
unfolding execute_image execute_image_from is_image_dimension_error to_lower is_image_size_error
image_failed = refl

execute-Succeeded_example : Succeeded fresh one_fails [] answer cleared
execute-Succeeded_example = execute-Succeeded one_fails fresh second_answers

execute_other_provider_example :
    (is_available 2000 (codes "zhipu") (execute both_fail cooling).0
      ≡ is_available 2000 (codes "zhipu") cooling)
    × (error_count (codes "zhipu") (execute both_fail cooling).0
        ≡ error_count (codes "zhipu") cooling)
execute_other_provider_example =
    execute_other_provider both_fail cooling (codes "zhipu") 2000
      ((λ e. absurd (ground arith)), ((λ e. absurd (ground arith)), tt))

abbrev models : ModelConfig
models = record {
  primary = codes "Claude/opus";
  fallbacks = codes "anthropic/opus" ∷ codes "gpt-4" ∷ [];
}

resolve_candidates-Distinct_example :
    let cs = resolve_candidates models (codes "openai") in
    Distinct cs
    × All
        (Represented (codes "openai") cs)
        (codes "Claude/opus" ∷ codes "anthropic/opus" ∷ codes "gpt-4" ∷ [])
resolve_candidates-Distinct_example = resolve_candidates-Distinct models (codes "openai")
