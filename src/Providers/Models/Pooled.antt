-- ===== src/Providers/Models/Pooled.antt =====
-- pkg/providers/pool.go: a provider that was made is kept in the pool.
use elvis.Base.{
  ◌≡◌, refl, ap, ◌∙◌, Option, none, some, ◌⊎◌, inl, inr, List, Text, lookup, insert,
  lookup-insert_self, ℕ,
}
use elvis.Providers.Models.{
  ModelConfig, ProviderPool, PoolError, pool_key, create_for, get_model_config, get,
}

module _ {P : Type 0} (create : ModelConfig → Option P) (model_list : List ModelConfig) where
  -- The result, if there is one.
  abbrev made : P ⊎ PoolError → Option P
  made (inl p) = some p
  made (inr e) = none

  -- A key that is in the pool gives its provider.
  get-kept :
      (provider model : Text) (pool : ProviderPool P) (p : P)
      → lookup (pool_key create model_list provider model) pool.providers ≡ some p
      → get create model_list provider model pool ≡ (pool, inl p)
  unfolding get
  get-kept provider model pool p e = rw (e, get) refl

  create_for-keeps :
      (key : Text) (cfg : Option ModelConfig) (pool : ProviderPool P) (p : P)
      → (create_for create model_list key cfg pool).1 ≡ inl p
      → lookup key (create_for create model_list key cfg pool).0.providers ≡ some p
  create_for-keeps key none pool p e = absurd (cc)
  create_for-keeps key (some cfg) pool p e = go (create cfg) e
    where
      after : Option P → ProviderPool P × (P ⊎ PoolError)
      after o = elim o [
        | none ↦ (pool, inr PoolError.not_created)
        | some q ↦ (record pool { providers = insert key q pool.providers }, inl q)
      ]

      go : (o : Option P) → (after o).1 ≡ inl p → lookup key (after o).0.providers ≡ some p
      go none h = absurd (cc)
      go (some q) h = lookup-insert_self key q pool.providers ∙ ap made h

  get-keeps :
      (provider model : Text) (pool : ProviderPool P) (p : P)
      → (get create model_list provider model pool).1 ≡ inl p
      → lookup
          (pool_key create model_list provider model)
          (get create model_list provider model pool).0.providers
        ≡ some p
  unfolding get
  get-keeps provider model pool p =
      go (lookup (pool_key create model_list provider model) pool.providers) refl
    where
      key : Text
      key = pool_key create model_list provider model

      picked : ℕ × Option ModelConfig
      picked = get_model_config model_list key pool.counter

      after : Option P → ProviderPool P × (P ⊎ PoolError)
      after o = elim o [
        | some q ↦ (pool, inl q)
        | none ↦ create_for create model_list key picked.1 (record pool { counter = picked.0 })
      ]

      go :
          (o : Option P)
          → lookup key pool.providers ≡ o
          → (after o).1 ≡ inl p
          → lookup key (after o).0.providers ≡ some p
      go none e h = create_for-keeps key picked.1 (record pool { counter = picked.0 }) p h
      go (some q) e h = e ∙ ap made h

  -- When Get has given a provider, by making it or from the pool, a further Get for the same provider and
  -- model gives that one, without making one, and leaves the pool and the counter as they are.
  get-again :
      (provider model : Text) (pool : ProviderPool P) (p : P)
      → (get create model_list provider model pool).1 ≡ inl p
      → let got = (get create model_list provider model pool).0 in
        get create model_list provider model got ≡ (got, inl p)
  get-again provider model pool p h =
      get-kept provider model (get create model_list provider model pool).0 p
        (get-keeps provider model pool p h)
