-- ===== src/Routing/Route.antt =====
-- pkg/routing/route.go: the seven-level cascade that picks an agent for a message. The part of
-- pkg/config/config.go that it reads is a record.
pub mod Cascade
pub mod Agents
mod Examples
use elvis.Base.{
  ℕ, Bool, true, false, ◌&&◌, ◌||◌, not, List, [], ◌∷◌, Option, none, some, Text, codes, text_eq,
  is_nil, any, find?, if◌then◌else◌,
}
use elvis.Strings.{Unicode, to_lower, trim_space}
use elvis.Routing.AgentId.{
  default_agent_id, default_account_id, normalize_agent_id, normalize_account_id,
}
use elvis.Routing.SessionKey.{
  DmScope, unset, main, RoutePeer, SessionKeyParams, build_agent_main_session_key,
  build_agent_peer_session_key,
}

pub record BindingMatch : Type 0 where
  pub channel : Text
  pub account_id : Text
  pub peer : Option RoutePeer
  pub guild_id : Text
  pub team_id : Text

pub record AgentBinding : Type 0 where
  pub agent_id : Text
  pub match : BindingMatch

pub record AgentConfig : Type 0 where
  pub id : Text
  pub default : Bool

pub record Config : Type 0 where
  pub agents : List AgentConfig
  pub bindings : List AgentBinding
  pub dm_scope : DmScope
  pub identity_links : List (Text × List Text)

pub record RouteInput : Type 0 where
  pub channel : Text
  pub account_id : Text
  pub peer : Option RoutePeer
  pub parent_peer : Option RoutePeer
  pub guild_id : Text
  pub team_id : Text

-- The values of `MatchedBy`.
pub data MatchedBy : Type 0 where
  by_peer by_parent by_guild by_team by_account by_channel by_default : MatchedBy

pub record ResolvedRoute : Type 0 where
  pub agent_id : Text
  pub channel : Text
  pub account_id : Text
  pub session_key : Text
  pub main_session_key : Text
  pub matched_by : MatchedBy

-- No peer, guild or team restricts the binding.
abbrev pub is_plain : BindingMatch → Bool
is_plain m = elim m.peer [ none ↦ is_nil m.guild_id && is_nil m.team_id | some p ↦ false ]

module _ ⦃u : Unicode⦄ where
  unfoldable pub matches_account_id : Text → Text → Bool
  matches_account_id match_account actual =
      let trimmed = trim_space match_account in
      if is_nil trimmed
      then text_eq actual default_account_id
      else if text_eq trimmed (codes "*")
      then true
      else text_eq (to_lower trimmed) (to_lower actual)

  -- Whether a binding is for the channel and the account, by the loop of `filterBindings`.
  unfoldable pub applies : Text → Text → AgentBinding → Bool
  applies channel account_id b =
      let match_channel = to_lower (trim_space b.match.channel) in
      if is_nil match_channel || not (text_eq match_channel channel)
      then false
      else matches_account_id b.match.account_id account_id

  unfoldable pub filter_bindings : Text → Text → List AgentBinding → List AgentBinding
  filter_bindings channel account_id [] = []
  filter_bindings channel account_id (b ∷ bs) =
      let rest = filter_bindings channel account_id bs in
      if applies channel account_id b then b ∷ rest else rest

  unfoldable pub is_peer_match : RoutePeer → AgentBinding → Bool
  is_peer_match peer b = elim b.match.peer [
    | none ↦ false
    | some p ↦
        let kind = to_lower (trim_space p.kind) in
        let id = trim_space p.id in
        if is_nil kind || is_nil id
        then false
        else text_eq kind (to_lower peer.kind) && text_eq id peer.id
  ]

  unfoldable pub find_peer_match : List AgentBinding → RoutePeer → Option AgentBinding
  find_peer_match bindings peer = find? (is_peer_match peer) bindings

  unfoldable pub is_guild_match : Text → AgentBinding → Bool
  is_guild_match guild_id b =
      let match_guild = trim_space b.match.guild_id in
      not (is_nil match_guild) && text_eq match_guild guild_id

  unfoldable pub find_guild_match : List AgentBinding → Text → Option AgentBinding
  find_guild_match bindings guild_id = find? (is_guild_match guild_id) bindings

  unfoldable pub is_team_match : Text → AgentBinding → Bool
  is_team_match team_id b =
      let match_team = trim_space b.match.team_id in
      not (is_nil match_team) && text_eq match_team team_id

  unfoldable pub find_team_match : List AgentBinding → Text → Option AgentBinding
  find_team_match bindings team_id = find? (is_team_match team_id) bindings

  unfoldable pub is_account_match : AgentBinding → Bool
  is_account_match b =
      if text_eq (trim_space b.match.account_id) (codes "*") then false else is_plain b.match

  unfoldable pub find_account_match : List AgentBinding → Option AgentBinding
  find_account_match bindings = find? is_account_match bindings

  unfoldable pub is_wildcard_match : AgentBinding → Bool
  is_wildcard_match b =
      if not (text_eq (trim_space b.match.account_id) (codes "*")) then false else is_plain b.match

  unfoldable pub find_channel_wildcard_match : List AgentBinding → Option AgentBinding
  find_channel_wildcard_match bindings = find? is_wildcard_match bindings

  -- The loop of `resolveDefaultAgentID` over the agents marked as default.
  unfoldable pub marked_default : List AgentConfig → Option Text
  marked_default [] = none
  marked_default (a ∷ as') =
      let rest = marked_default as' in
      let id = trim_space a.id in
      if a.default && not (is_nil id) then some (normalize_agent_id id) else rest

  unfoldable pub resolve_default_agent_id : List AgentConfig → Text
  resolve_default_agent_id [] = default_agent_id
  resolve_default_agent_id (a ∷ as') = elim (marked_default (a ∷ as')) [
    | some id ↦ id
    | none ↦
        let id = trim_space a.id in if is_nil id then default_agent_id else normalize_agent_id id
  ]

  unfoldable pub pick_agent_id : List AgentConfig → Text → Text
  pick_agent_id agents agent_id =
      let trimmed = trim_space agent_id in
      let normalized = normalize_agent_id trimmed in
      let fallback = normalize_agent_id (resolve_default_agent_id agents) in
      if is_nil trimmed
      then fallback
      else if is_nil agents
      then normalized
      else if any (λ a. text_eq (normalize_agent_id a.id) normalized) agents
      then normalized
      else fallback

  abbrev pub scope_or_main : DmScope → DmScope
  scope_or_main unset = main
  scope_or_main s = s

  -- The closure `choose`.
  unfoldable pub choose : Config → RouteInput → Text → MatchedBy → ResolvedRoute
  choose cfg input agent_id matched_by =
      let channel = to_lower (trim_space input.channel) in
      let account_id = normalize_account_id input.account_id in
      let resolved = pick_agent_id cfg.agents agent_id in
      let params : SessionKeyParams = record {
        agent_id = resolved;
        channel = channel;
        account_id = account_id;
        peer = input.peer;
        dm_scope = scope_or_main cfg.dm_scope;
        identity_links = cfg.identity_links;
      } in
      record {
        agent_id = resolved;
        channel = channel;
        account_id = account_id;
        session_key = to_lower (build_agent_peer_session_key params);
        main_session_key = to_lower (build_agent_main_session_key resolved);
        matched_by = matched_by;
      }

  -- A peer with an ID, looked up among the bindings.
  unfoldable pub peer_tier : List AgentBinding → Option RoutePeer → Option AgentBinding
  peer_tier bindings none = none
  peer_tier bindings (some p) =
      if is_nil (trim_space p.id) then none else find_peer_match bindings p

  unfoldable pub id_tier :
      (List AgentBinding → Text → Option AgentBinding)
      → List AgentBinding
      → Text
      → Option AgentBinding
  id_tier find bindings id =
      let trimmed = trim_space id in if is_nil trimmed then none else find bindings trimmed

  -- `if match := …; match != nil { return choose(match.AgentID, tier) }`, and the code below it.
  unfoldable pub else_tier :
      Option AgentBinding
      → MatchedBy
      → Option (AgentBinding × MatchedBy)
      → Option (AgentBinding × MatchedBy)
  else_tier (some b) tier below = some (b, tier)
  else_tier none tier below = below

  -- The binding that decides, and its tier; `none` is the default.
  unfoldable pub decide : List AgentBinding → RouteInput → Option (AgentBinding × MatchedBy)
  decide bindings input = else_tier (peer_tier bindings input.peer) by_peer (
      else_tier (peer_tier bindings input.parent_peer) by_parent (
        else_tier (id_tier find_guild_match bindings input.guild_id) by_guild (
          else_tier (id_tier find_team_match bindings input.team_id) by_team (
            else_tier (find_account_match bindings) by_account
              (else_tier (find_channel_wildcard_match bindings) by_channel none)))))

  abbrev relevant : Config → RouteInput → List AgentBinding
  relevant cfg input =
      filter_bindings (to_lower (trim_space input.channel)) (normalize_account_id input.account_id)
        cfg.bindings

  unfoldable pub resolve_route : Config → RouteInput → ResolvedRoute
  resolve_route cfg input = elim (decide (relevant cfg input) input) [
    | some (b, tier) ↦ choose cfg input b.agent_id tier
    | none ↦ choose cfg input (resolve_default_agent_id cfg.agents) by_default
  ]
