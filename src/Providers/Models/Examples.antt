-- ===== src/Providers/Models/Examples.antt =====
-- The models of pkg/config/config.go and the pool of pkg/providers/pool.go on concrete configurations.
use elvis.Base.{◌≡◌, refl, ◌∷◌, [], List, Option, none, some, Text, codes, inl, lookup, text_eq}
use elvis.Providers.Models.{
  ModelConfig, ProviderPool, PoolError, validate_model_list, get_model_config, get, warmup,
  pick_match, find_matches, validate,
}

abbrev fast_model : Text → ModelConfig
fast_model key = record {
  model_name = codes "openai/fast";
  model = codes "openai/gpt-4o";
  api_base = codes "";
  api_key = key;
  proxy = codes "";
  auth_method = codes "";
  connect_mode = codes "";
  workspace = codes "";
  rpm = 0;
  max_tokens_field = codes "";
  max_input_len = 0;
}

abbrev model_list : List ModelConfig
model_list = fast_model (codes "a") ∷ fast_model (codes "b") ∷ []

-- A provider is the key that it was made with.
abbrev by_key : ModelConfig → Option Text
by_key cfg = some cfg.api_key

abbrev empty : ProviderPool Text
empty = record { providers = []; counter = 0 }

-- The counter goes up before it is used.
second : (get by_key model_list (codes "openai") (codes "fast") empty).1 ≡ inl (codes "b")
unfolding get lookup get_model_config pick_match find_matches text_eq
second = refl

wraps : (get_model_config model_list (codes "openai/fast") 18446744073709551615).0 ≡ 0
unfolding get_model_config pick_match find_matches text_eq
wraps = refl

missing :
    (warmup by_key model_list
      (record { provider = codes "openai"; model = codes "slow" } ∷ [])
      empty).1
    ≡ some PoolError.no_config
unfolding warmup get lookup get_model_config pick_match find_matches text_eq
missing = refl

invalid : validate_model_list 0 (model_list) ≡ none
unfolding validate_model_list validate
invalid = refl
