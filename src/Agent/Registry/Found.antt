-- ===== src/Agent/Registry/Found.antt =====
-- pkg/agent/registry.go and pkg/routing/route.go: the agent of a route is one of the registry's.
use elvis.Base.{
  ◌≡◌, ◌≢◌, refl, sym, ap, subst, ◌∙◌, inl, inr, Bool, true, false, ◌||◌, List, [], ◌∷◌, map,
  Option, none, some, Option-cases, Text, lookup, insert, lookup-insert, lookup-insert_ne, text_eq,
  text_eq_iff, if◌then◌else◌, arith,
}
use elvis.Strings.{Unicode}
use elvis.Routing.AgentId.{normalize_agent_id}
use elvis.Routing.AgentId.Fixed.{normalize_agent_id_idem}
use elvis.Routing.Route.{AgentConfig, Config, RouteInput, resolve_route}
use elvis.Routing.Route.Agents.{is_listed, AllAlnum, resolve_route-agent}
use elvis.Session.Disk.{Directory}
use elvis.Agent.Instance.{AgentSettings, AgentDefaults, AgentInstance, new_agent_instance}
use elvis.Agent.Registry.{Registry, register_agents, new_agent_registry, get_agent}

abbrev pub routed_of : AgentSettings → AgentConfig
routed_of ac = ac.routed

module _ {A : Type 0} ⦃u : Unicode⦄ (make : AgentSettings → AgentInstance A) where
  -- An entry stays when more agents are registered, perhaps with another agent.
  register-keeps :
      (acs : List AgentSettings) (registry : Registry A) (id : Text)
      → lookup id registry ≢ none
      → lookup id (register_agents make acs registry) ≢ none
  unfolding register_agents
  register-keeps [] registry id h = h
  register-keeps (ac ∷ acs) registry id h =
      register-keeps acs (insert (normalize_agent_id ac.routed.id) (make ac) registry) id
        (go (text_eq (normalize_agent_id ac.routed.id) id) refl)
    where
      go :
          (b : Bool)
          → text_eq (normalize_agent_id ac.routed.id) id ≡ b
          → lookup id (insert (normalize_agent_id ac.routed.id) (make ac) registry) ≢ none
      go true e =
          λ k. ground (arith, lookup-insert (normalize_agent_id ac.routed.id) id (make ac) registry)
      go false e = λ k.
          h (sym (lookup-insert_ne (normalize_agent_id ac.routed.id) id (make ac) registry e) ∙ k)

  register-listed :
      (acs : List AgentSettings) (registry : Registry A) (id : Text)
      → is_listed (map routed_of acs) id ≡ true
      → lookup id (register_agents make acs registry) ≢ none
  unfolding register_agents
  register-listed [] registry id h = absurd (ground arith)
  register-listed (ac ∷ acs) registry id h =
      go (text_eq (normalize_agent_id ac.routed.id) id) refl
        (λ k.
          register-listed acs (insert (normalize_agent_id ac.routed.id) (make ac) registry) id k)
        h
    where
      later : Registry A
      later = insert (normalize_agent_id ac.routed.id) (make ac) registry

      go :
          (b : Bool)
          → text_eq (normalize_agent_id ac.routed.id) id ≡ b
          → (is_listed (map routed_of acs) id ≡ true
              → lookup id (register_agents make acs later) ≢ none)
          → (b || is_listed (map routed_of acs) id) ≡ true
          → lookup id (register_agents make acs later) ≢ none
      go true e rec k = register-keeps acs later id (λ l.
          ground (arith, lookup-insert (normalize_agent_id ac.routed.id) id (make ac) registry))
      go false e rec k = rec k

module _ {A : Type 0} where
  -- Each agent stands under its own ID.
  abbrev IsOwn : Registry A → Type 0
  IsOwn registry =
      (id : Text) (agent : AgentInstance A) → lookup id registry ≡ some agent → agent.id ≡ id

  insert-IsOwn :
      (key : Text) (agent : AgentInstance A) (registry : Registry A)
      → agent.id ≡ key
      → IsOwn registry
      → IsOwn (insert key agent registry)
  insert-IsOwn key agent registry own all = λ id found e.
      go id found (text_eq key id) refl (sym (lookup-insert key id agent registry) ∙ e)
    where
      value : Option (AgentInstance A) → AgentInstance A
      value o = elim o [ none ↦ agent | some x ↦ x ]

      go :
          (id : Text) (found : AgentInstance A) (b : Bool)
          → text_eq key id ≡ b
          → (if b then some agent else lookup id registry) ≡ some found
          → found.id ≡ id
      go id found true e k = ap (λ o. (value o).id) (sym k) ∙ own ∙ (text_eq_iff key id).0 e
      go id found false e k = all id found k

module _ {A : Type 0} ⦃u : Unicode⦄ (make : AgentSettings → AgentInstance A)
    (own : (ac : AgentSettings) → (make ac).id ≡ normalize_agent_id ac.routed.id) where
  register-IsOwn :
      (acs : List AgentSettings) (registry : Registry A)
      → IsOwn registry
      → IsOwn (register_agents make acs registry)
  unfolding register_agents
  register-IsOwn [] registry h = h
  register-IsOwn (ac ∷ acs) registry h =
      register-IsOwn acs _
        (insert-IsOwn (normalize_agent_id ac.routed.id) (make ac) registry (own ac) h)

module _ ⦃u : Unicode⦄ where
  listed-fixed :
      (agents : List AgentConfig) (id : Text)
      → AllAlnum agents
      → is_listed agents id ≡ true
      → normalize_agent_id id ≡ id
  listed-fixed [] id h e = absurd (ground arith)
  listed-fixed (a ∷ rest) id (p, h) e =
      go (text_eq (normalize_agent_id a.id) id) refl e (listed-fixed rest id h)
    where
      go :
          (b : Bool)
          → text_eq (normalize_agent_id a.id) id ≡ b
          → (b || is_listed rest id) ≡ true
          → (is_listed rest id ≡ true → normalize_agent_id id ≡ id)
          → normalize_agent_id id ≡ id
      go true k e rec =
          subst (λ i. normalize_agent_id i ≡ i) ((text_eq_iff _ id).0 k)
            (normalize_agent_id_idem a.id p)
      go false k e rec = rec e

module _ {A : Type 0} ⦃u : Unicode⦄ (home : Text) (disk : Text → Option (Directory A))
    (defaults : AgentDefaults) where
  abbrev make_agent : AgentSettings → AgentInstance A
  make_agent ac = new_agent_instance home disk ac defaults

  -- The registry that NewAgentRegistry makes of a configuration's agents.
  abbrev pub registry_of : List AgentSettings → Registry A
  registry_of acs = new_agent_registry make_agent acs

  make_agent-own : (ac : AgentSettings) → (make_agent ac).id ≡ normalize_agent_id ac.routed.id
  unfolding new_agent_instance
  make_agent-own ac = refl

  registered :
      (acs : List AgentSettings) (id : Text)
      → AllAlnum (map routed_of acs)
      → is_listed (map routed_of acs) id ≡ true
      → (agent : AgentInstance A) × (get_agent (registry_of acs) id ≡ some agent) × (agent.id ≡ id)
  unfolding get_agent new_agent_registry lookup
  registered [] id h e = absurd (ground arith)
  registered (ac ∷ acs) id h e =
      let fixed : normalize_agent_id id ≡ id = listed-fixed (map routed_of (ac ∷ acs)) id h e in
      let registry = register_agents make_agent (ac ∷ acs) [] in
      elim (Option-cases (lookup id registry)) [
        | inl k ↦ absurd (register-listed make_agent (ac ∷ acs) [] id e k)
        | inr (agent, k) ↦ (
          agent,
          ap (λ i. lookup i registry) fixed ∙ k,
          register-IsOwn make_agent make_agent-own (ac ∷ acs) [] (λ i a l. absurd (nothing l)) id
              agent k,
        )
      ]
    where
      nothing : {a : AgentInstance A} → none ≢ some a
      nothing = λ l. ground arith

  -- Where the router and the registry are made from the same agents, at least one, whose normalised IDs
  -- begin with letters or digits: the agent that the router names for a message is in the registry, and
  -- the instance found there has the ID that the router named.
  pub route-registered :
      (acs : List AgentSettings) (cfg : Config) (input : RouteInput)
      → cfg.agents ≢ []
      → cfg.agents ≡ map routed_of acs
      → AllAlnum cfg.agents
      → let id = (resolve_route cfg input).agent_id in
        (agent : AgentInstance A) × (get_agent (registry_of acs) id ≡ some agent) × (agent.id ≡ id)
  route-registered acs cfg input ne same h =
      registered acs (resolve_route cfg input).agent_id (subst AllAlnum same h) (
        subst (λ agents. is_listed agents (resolve_route cfg input).agent_id ≡ true) same
          (resolve_route-agent cfg input ne h))
