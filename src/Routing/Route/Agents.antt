-- ===== src/Routing/Route/Agents.antt =====
-- The agent and the session keys of a route of pkg/routing/route.go.
use elvis.Base.{
  ◌≡◌, ◌≢◌, refl, sym, ap, subst, ◌∙◌, inl, inr, Bool, true, false, ◌&&◌, not, List, [], ◌∷◌, ◌++◌,
  none, some, Text, codes, All, All-append, is_nil, any, text_eq, text_eq_iff, Bool-cases,
  Option-cases, if◌then◌else◌, arith,
}
use elvis.Strings.{Unicode, trim_space}
use elvis.Strings.TrimTwice.{trim_space_idem}
use elvis.Strings.Lower.{IsLow, to_lower-low}
use elvis.Routing.AgentId.{default_main_key, is_valid_id, normalize_id, normalize_agent_id}
use elvis.Routing.AgentId.Shape.{
  IsNormalized, id_bytes-IsInk, normalize_id-valid, normalize_ids-IsNormalized,
}
use elvis.Routing.AgentId.Fixed.{begins_alnum, normalize_agent_id_idem}
use elvis.Routing.SessionKey.{build_agent_main_session_key, parse_agent_session_key}
use elvis.Routing.SessionKey.RoundTrip.{parse-build_main}
use elvis.Routing.Route.{
  by_default, AgentConfig, Config, RouteInput, MatchedBy, marked_default, resolve_default_agent_id,
  pick_agent_id, choose, decide, relevant, resolve_route,
}

module _ ⦃u : Unicode⦄ where
  -- Some configured agent has the normalised ID `id`.
  abbrev pub is_listed : List AgentConfig → Text → Bool
  is_listed agents id = any (λ a. text_eq (normalize_agent_id a.id) id) agents

  abbrev pub AllAlnum : List AgentConfig → Type 0
  AllAlnum = All (λ a. begins_alnum (normalize_agent_id a.id) ≡ true)

  normalize-trim : (id : Text) → normalize_agent_id (trim_space id) ≡ normalize_agent_id id
  unfolding normalize_agent_id normalize_id
  normalize-trim id = rw (trim_space_idem id)

  abbrev IsListed : List AgentConfig → Text → Type 0
  IsListed agents id = is_listed agents id ≡ true

  normalize-blank :
      (id : Text) → is_nil (trim_space id) ≡ true → normalize_agent_id id ≡ codes "main"
  unfolding normalize_agent_id normalize_id
  normalize-blank id h = rw h refl

  normalize-main : normalize_agent_id (codes "main") ≡ codes "main"
  normalize-main =
      unfold normalize_agent_id in normalize_id-valid _ (codes "main") (unfold is_valid_id in refl)

  -- The normalised ID of a trimmed agent ID, normalised once more.
  twice :
      (id : Text)
      → begins_alnum (normalize_agent_id id) ≡ true
      → normalize_agent_id (normalize_agent_id (trim_space id)) ≡ normalize_agent_id id
  twice id h = ap normalize_agent_id (normalize-trim id) ∙ normalize_agent_id_idem id h

  marked_default-listed :
      (agents : List AgentConfig) {id : Text}
      → AllAlnum agents
      → marked_default agents ≡ some id
      → is_listed agents (normalize_agent_id id) ≡ true
  unfolding marked_default
  marked_default-listed [] h e = absurd (ground arith)
  marked_default-listed (a ∷ as') {id} (p, h) e =
      elim (Bool-cases (a.default && not (is_nil (trim_space a.id)))) [
        | inl marked ↦
            let same : normalize_agent_id (trim_space a.id) ≡ id = ground arith in
            let own : normalize_agent_id a.id ≡ normalize_agent_id id =
              sym (twice a.id p) ∙ ap normalize_agent_id same in
            rw ((text_eq_iff _ _).1 own)
        | inr other ↦ ground (arith, marked_default-listed as' {id = id} h)
      ]

  resolve_marked :
      (agents : List AgentConfig) {id : Text}
      → marked_default agents ≡ some id
      → resolve_default_agent_id agents ≡ id
  unfolding resolve_default_agent_id
  resolve_marked [] h = absurd (unfold marked_default in ground arith)
  resolve_marked (a ∷ as') h = rw (h, resolve_default_agent_id)

  resolve_first :
      (a : AgentConfig) (as' : List AgentConfig)
      → marked_default (a ∷ as') ≡ none
      → resolve_default_agent_id (a ∷ as')
        ≡ (if is_nil (trim_space a.id) then codes "main" else normalize_agent_id (trim_space a.id))
  unfolding resolve_default_agent_id
  resolve_first a as' h = rw (h, resolve_default_agent_id)

  first_agent-IsListed :
      (a : AgentConfig) (as' : List AgentConfig) (blank : Bool)
      → is_nil (trim_space a.id) ≡ blank
      → begins_alnum (normalize_agent_id a.id) ≡ true
      → IsListed (a ∷ as') (
          normalize_agent_id (if blank then codes "main" else normalize_agent_id (trim_space a.id)))
  first_agent-IsListed a as' true e h =
      rw ((text_eq_iff _ _).1 (normalize-blank a.id e ∙ sym normalize-main))
  first_agent-IsListed a as' false e h = rw ((text_eq_iff _ _).1 (sym (twice a.id h)))

  default_agent-IsListed :
      (a : AgentConfig) (as' : List AgentConfig)
      → AllAlnum (a ∷ as')
      → IsListed (a ∷ as') (normalize_agent_id (resolve_default_agent_id (a ∷ as')))
  default_agent-IsListed a as' h = elim (Option-cases (marked_default (a ∷ as'))) [
    | inr (id, e) ↦
        subst (λ d. IsListed (a ∷ as') (normalize_agent_id d)) (sym (resolve_marked (a ∷ as') e))
          (marked_default-listed (a ∷ as') h e)
    | inl e ↦
        subst (λ d. IsListed (a ∷ as') (normalize_agent_id d)) (sym (resolve_first a as' e))
          (first_agent-IsListed a as' (is_nil (trim_space a.id)) refl h.0)
  ]

  pick_agent_id-IsListed :
      (agents : List AgentConfig) (agent_id : Text)
      → agents ≢ []
      → AllAlnum agents
      → IsListed agents (pick_agent_id agents agent_id)
  unfolding pick_agent_id
  pick_agent_id-IsListed [] agent_id ne h = absurd (ne refl)
  pick_agent_id-IsListed (a ∷ as') agent_id ne h =
      let agents = a ∷ as' in
      let normalized = normalize_agent_id (trim_space agent_id) in
      go (is_nil (trim_space agent_id)) (is_listed agents normalized) refl
    where
      go :
          (blank known : Bool)
          → is_listed (a ∷ as') (normalize_agent_id (trim_space agent_id)) ≡ known
          → IsListed (a ∷ as') (
              if blank
              then normalize_agent_id (resolve_default_agent_id (a ∷ as'))
              else if known
              then normalize_agent_id (trim_space agent_id)
              else normalize_agent_id (resolve_default_agent_id (a ∷ as')))
      go true known e = default_agent-IsListed a as' h
      go false true e = e
      go false false e = default_agent-IsListed a as' h

  pick_agent_id-IsNormalized :
      (agents : List AgentConfig) (agent_id : Text) → IsNormalized (pick_agent_id agents agent_id)
  unfolding pick_agent_id
  pick_agent_id-IsNormalized agents agent_id =
      pick _ (normalized (resolve_default_agent_id agents)) (
        pick (is_nil agents) (normalized (trim_space agent_id)) (
          pick _ (normalized (trim_space agent_id)) (normalized (resolve_default_agent_id agents))))
    where
      normalized : (id : Text) → IsNormalized (normalize_agent_id id)
      normalized id = (normalize_ids-IsNormalized id).0

      pick :
          (b : Bool) {x y : Text}
          → IsNormalized x
          → IsNormalized y
          → IsNormalized (if b then x else y)
      pick true h k = h
      pick false h k = k

  main_key-IsLow : (id : Text) → All IsLow (build_agent_main_session_key id)
  unfolding build_agent_main_session_key
  main_key-IsLow id =
      All-append IsLow (codes "agent") (b':' ∷ normalize_agent_id id ++ b':' ∷ default_main_key)
        (omega arith)
        (
          omega arith,
          All-append IsLow (normalize_agent_id id) (b':' ∷ default_main_key)
              (id_bytes-IsInk _ (normalize_ids-IsNormalized id).0.id_bytes).1 (omega arith),
        )

  -- The route is a choice of some agent, whatever the cascade decides.
  resolve_route-choose :
      (cfg : Config) (input : RouteInput)
      → (id : Text) × (t : MatchedBy) × (resolve_route cfg input ≡ choose cfg input id t)
  unfolding resolve_route
  resolve_route-choose cfg input = elim (Option-cases (decide (relevant cfg input) input)) [
    | inr ((b, t), e) ↦ (b.agent_id, t, rw (e, resolve_route))
    | inl e ↦ (resolve_default_agent_id cfg.agents, by_default, rw (e, resolve_route))
  ]

-- If agents are configured and their normalised IDs begin with letters or digits, then every message
-- goes to one of them, whatever agent a binding names.
pub resolve_route-agent :
    ⦃u : Unicode⦄ (cfg : Config) (input : RouteInput)
    → cfg.agents ≢ []
    → AllAlnum cfg.agents
    → is_listed cfg.agents (resolve_route cfg input).agent_id ≡ true
resolve_route-agent cfg input ne h =
    let (id, t, e) = resolve_route-choose cfg input in
    subst (λ r. IsListed cfg.agents r.agent_id) (sym e)
      (unfold choose in pick_agent_id-IsListed cfg.agents id ne h)

-- The main session key of every route is read back as the agent that the route names, normalised, and
-- "main": lower-casing the key changes nothing of it.
pub resolve_route-main_key :
    ⦃u : Unicode⦄ (cfg : Config) (input : RouteInput)
    → let r = resolve_route cfg input in
      IsNormalized r.agent_id
      × (parse_agent_session_key r.main_session_key
          ≡ some (record { agent_id = normalize_agent_id r.agent_id; rest = codes "main" }))
resolve_route-main_key cfg input =
    let (id, t, e) = resolve_route-choose cfg input in
    subst
      (λ r.
        IsNormalized r.agent_id
        × (parse_agent_session_key r.main_session_key
            ≡ some (record { agent_id = normalize_agent_id r.agent_id; rest = codes "main" })))
      (sym e)
      (unfold choose in
        (
          pick_agent_id-IsNormalized cfg.agents id,
          ap parse_agent_session_key (to_lower-low _ (main_key-IsLow (pick_agent_id cfg.agents id)))
              ∙ parse-build_main (pick_agent_id cfg.agents id),
        ))
