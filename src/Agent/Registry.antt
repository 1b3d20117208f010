-- ===== src/Agent/Registry.antt =====
-- pkg/agent/registry.go: the agents and their lookup by ID.
pub mod Found
use elvis.Base.{
  Bool, true, false, ◌||◌, List, [], ◌∷◌, Option, none, some, Text, codes, Dict, lookup, insert,
  any, text_eq, if◌then◌else◌,
}
use elvis.Strings.{Unicode}
use elvis.Routing.AgentId.{normalize_agent_id}
use elvis.Agent.Instance.{AgentSettings, AgentInstance, SubagentsConfig, implicit_agent}

abbrev pub Registry : Type 0 → Type 0
Registry A = Dict (AgentInstance A)

module _ {A : Type 0} where
  -- Go leaves the order of a `range` over a map open, and may take another one at each call; here it is
  -- the list's at every call. So the default agent is fixed also when no agent is called main.
  unfoldable pub list_agent_ids : Registry A → List Text
  list_agent_ids [] = []
  list_agent_ids ((id, agent) ∷ registry) = id ∷ list_agent_ids registry

  abbrev pub first_agent : Registry A → Option (AgentInstance A)
  first_agent [] = none
  first_agent ((id, agent) ∷ registry) = some agent

  unfoldable pub get_default_agent : Registry A → Option (AgentInstance A)
  get_default_agent registry = elim (lookup (codes "main") registry) [
    | some agent ↦ some agent
    | none ↦ first_agent registry
  ]

  abbrev pub allowed_agents : AgentInstance A → Option (List Text)
  allowed_agents agent = elim agent.subagents [ none ↦ none | some s ↦ s.allow_agents ]

module _ ⦃u : Unicode⦄ where
  abbrev pub allows : Text → Text → Bool
  allows target allowed =
      text_eq allowed (codes "*")
      || text_eq (normalize_agent_id allowed) (normalize_agent_id target)

  module _ {A : Type 0} where
    -- `make` is `new_agent_instance` with its arguments.
    unfoldable pub register_agents :
        (AgentSettings → AgentInstance A) → List AgentSettings → Registry A → Registry A
    register_agents make [] registry = registry
    register_agents make (ac ∷ acs) registry =
        register_agents make acs (insert (normalize_agent_id ac.routed.id) (make ac) registry)

    unfoldable pub new_agent_registry :
        (AgentSettings → AgentInstance A) → List AgentSettings → Registry A
    new_agent_registry make [] = insert (codes "main") (make implicit_agent) []
    new_agent_registry make (ac ∷ acs) = register_agents make (ac ∷ acs) []

    unfoldable pub get_agent : Registry A → Text → Option (AgentInstance A)
    get_agent registry agent_id = lookup (normalize_agent_id agent_id) registry

    unfoldable pub can_spawn_subagent : Registry A → Text → Text → Bool
    can_spawn_subagent registry parent_id target_id = elim (get_agent registry parent_id) [
      | none ↦ false
      | some parent ↦ elim (allowed_agents parent) [
        | none ↦ false
        | some allowed ↦ any (allows target_id) allowed
      ]
    ]
