-- ===== src/Routing/Route/Examples.antt =====
-- A configuration of the kind in pkg/routing/route_test.go, and the theorems about the cascade at it.
use elvis.Base.{◌≡◌, ◌⊎◌, refl, List, [], ◌∷◌, some, none, true, false, codes, All, text_eq}
use elvis.Strings.{trim_space, to_lower, last_space_width, space_width, trim_from}
use elvis.Strings.Sample.{ascii_only}
use elvis.Routing.AgentId.{normalize_agent_id, normalize_id, is_valid_id}
use elvis.Routing.SessionKey.{RoutePeer, per_peer}
use elvis.Routing.Route.{
  AgentBinding, AgentConfig, Config, RouteInput, MatchedBy, by_peer, by_default, choose, relevant,
  resolve_default_agent_id, resolve_route, decide, pick_agent_id, is_peer_match, matches_account_id,
  applies, filter_bindings, find_peer_match, peer_tier, else_tier,
}
use elvis.Routing.Route.Cascade.{Decides, Rejects, tiers, resolve_route-cascade}
use elvis.Routing.Route.Agents.{AllAlnum}

abbrev ops : RoutePeer
ops = record { kind = codes "group"; id = codes "42" }

abbrev ops_binding : AgentBinding
ops_binding = record {
  agent_id = codes "Sales";
  match = record {
    channel = codes "telegram";
    account_id = codes "*";
    peer = some ops;
    guild_id = [];
    team_id = [];
  };
}

abbrev discord_binding : AgentBinding
discord_binding = record {
  agent_id = codes "support";
  match = record {
    channel = codes "discord";
    account_id = codes "*";
    peer = none;
    guild_id = [];
    team_id = [];
  };
}

abbrev agents : List AgentConfig
agents =
    record { id = codes "support"; default = true }
    ∷ record { id = codes "sales"; default = false }
    ∷ []

abbrev config : Config
config = record {
  agents = agents;
  bindings = discord_binding ∷ ops_binding ∷ [];
  dm_scope = per_peer;
  identity_links = [];
}

abbrev message : RouteInput
message = record {
  channel = codes "Telegram";
  account_id = [];
  peer = some ops;
  parent_peer = none;
  guild_id = [];
  team_id = [];
}

routed_by_peer : (resolve_route config message).matched_by ≡ by_peer
unfolding resolve_route decide else_tier peer_tier trim_space trim_from space_width last_space_width
    find_peer_match filter_bindings applies to_lower text_eq matches_account_id is_peer_match choose
routed_by_peer = refl

routed_to_sales : (resolve_route config message).agent_id ≡ codes "sales"
unfolding resolve_route decide else_tier peer_tier trim_space trim_from space_width last_space_width
    find_peer_match filter_bindings applies to_lower text_eq matches_account_id is_peer_match choose
    pick_agent_id normalize_agent_id normalize_id is_valid_id
routed_to_sales = refl

agents_alnum : AllAlnum agents
unfolding normalize_agent_id normalize_id trim_space trim_from space_width last_space_width
    is_valid_id to_lower
agents_alnum = (refl, (refl, tt))

lower_discord : to_lower (trim_space (codes "discord")) ≡ codes "discord"
unfolding to_lower trim_space trim_from space_width last_space_width
lower_discord = refl

lower_telegram : to_lower (trim_space (codes "Telegram")) ≡ codes "telegram"
unfolding to_lower trim_space trim_from space_width last_space_width
lower_telegram = refl

resolve_route-cascade_example :
    let bs = relevant config message in
    ((b : AgentBinding) × (t : MatchedBy) × (resolve_route config message
        ≡ choose config message b.agent_id t)
      × Decides bs message tiers b t)
    ⊎ ((resolve_route config message
          ≡ choose config message (resolve_default_agent_id agents) by_default)
        × All (Rejects bs message) tiers)
resolve_route-cascade_example = resolve_route-cascade config message
