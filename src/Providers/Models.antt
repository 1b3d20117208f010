-- ===== src/Providers/Models.antt =====
-- pkg/config/config.go: the models of the configuration; and pkg/providers/pool.go: the providers that
-- were made for them. `rr_counter` is the package's counter of picks, a uint64.
mod Pooled
mod Examples
use elvis.Base.{
  ℕ, zero, suc, ◌+◌, ◌%◌, ◌^◌, Bool, true, false, ◌&&◌, ◌||◌, not, List, [], ◌∷◌, ◌++◌, Option,
  none, some, ◌⊎◌, inl, inr, Text, codes, Dict, lookup, insert, length, text_eq, is_nil, any,
  if◌then◌else◌,
}
use elvis.Providers.Fallback.{FallbackCandidate}

pub record ModelConfig : Type 0 where
  pub model_name : Text
  pub model : Text
  pub api_base : Text
  pub api_key : Text
  pub proxy : Text
  pub auth_method : Text
  pub connect_mode : Text
  pub workspace : Text
  pub rpm : ℕ
  pub max_tokens_field : Text
  pub max_input_len : ℕ

pub data ConfigError : Type 0 where
  model_name_required model_required model_not_found : ConfigError

unfoldable pub validate : ModelConfig → Option ConfigError
validate c =
    if is_nil c.model_name
    then some model_name_required
    else if is_nil c.model
    then some model_required
    else none

-- The first invalid entry, with its index.
unfoldable pub validate_model_list : ℕ → List ModelConfig → Option (ℕ × ConfigError)
validate_model_list i [] = none
validate_model_list i (c ∷ cs) = elim (validate c) [
  | some e ↦ some (i, e)
  | none ↦ validate_model_list (suc i) cs
]

unfoldable pub find_matches : Text → List ModelConfig → List ModelConfig
find_matches model_name [] = []
find_matches model_name (c ∷ cs) =
    let rest = find_matches model_name cs in
    if text_eq c.model_name model_name then c ∷ rest else rest

abbrev get_elem? : List ModelConfig → ℕ → Option ModelConfig
get_elem? [] i = none
get_elem? (c ∷ cs) zero = some c
get_elem? (c ∷ cs) (suc i) = get_elem? cs i

-- The pick among matches, with the counter after it; the counter stays if there is no choice.
unfoldable pub pick_match : List ModelConfig → ℕ → ℕ × Option ModelConfig
pick_match [] rr_counter = (rr_counter, none)
pick_match (c ∷ []) rr_counter = (rr_counter, some c)
pick_match (c ∷ d ∷ cs) rr_counter =
    let counter = (rr_counter + 1) % 2 ^ 64 in
    (counter, get_elem? (c ∷ d ∷ cs) (counter % length (c ∷ d ∷ cs)))

unfoldable pub get_model_config : List ModelConfig → Text → ℕ → ℕ × Option ModelConfig
get_model_config model_list model_name rr_counter =
    pick_match (find_matches model_name model_list) rr_counter

-- `P` are the providers. `counter` is the package's counter, which is not the pool's own.
pub record ProviderPool (P : Type 0) : Type 0 where
  pub providers : Dict P
  pub counter : ℕ

pub data PoolError : Type 0 where
  no_config not_created : PoolError

-- The counter goes on, whatever pools there are.
unfoldable pub new_provider_pool : {P : Type 0} → ℕ → ProviderPool P
new_provider_pool rr_counter = record { providers = []; counter = rr_counter }

-- `create` is CreateProviderFromConfig, `none` its error.
module _ {P : Type 0} (create : ModelConfig → Option P) (model_list : List ModelConfig) where
  abbrev pub pool_key : Text → Text → Text
  pool_key provider model = provider ++ b'/' ∷ model

  abbrev pub create_for :
      Text → Option ModelConfig → ProviderPool P → ProviderPool P × (P ⊎ PoolError)
  create_for key none pool = (pool, inr no_config)
  create_for key (some cfg) pool = elim (create cfg) [
    | none ↦ (pool, inr not_created)
    | some p ↦ (record pool { providers = insert key p pool.providers }, inl p)
  ]

  unfoldable pub get : Text → Text → ProviderPool P → ProviderPool P × (P ⊎ PoolError)
  get provider model pool =
      let key = pool_key provider model in
      let picked = get_model_config model_list key pool.counter in
      elim (lookup key pool.providers) [
        | some p ↦ (pool, inl p)
        | none ↦ create_for key picked.1 (record pool { counter = picked.0 })
      ]

  -- The first error, if there is one; the others are tried all the same.
  unfoldable pub warmup :
      List FallbackCandidate → ProviderPool P → ProviderPool P × Option PoolError
  warmup [] pool = (pool, none)
  warmup (c ∷ cs) pool =
      let (got, result) = get c.provider c.model pool in
      let (warm, later) = warmup cs got in (warm, elim result [ inl p ↦ later | inr e ↦ some e ])
