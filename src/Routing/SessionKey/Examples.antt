-- ===== src/Routing/SessionKey/Examples.antt =====
-- Keys of the kinds in pkg/routing/session_key_test.go, and the theorems about them at concrete
-- parameters.
use elvis.Base.{◌≡◌, ◌≢◌, ◌↔◌, refl, List, [], ◌∷◌, some, true, inr, Text, codes, text_eq}
use elvis.Strings.{
  trim_space, trim_from, space_width, last_space_width, to_lower, split_n, cut, has_prefix,
}
use elvis.Strings.Sample.{ascii_only}
use elvis.Routing.AgentId.{normalize_agent_id, normalize_id, is_valid_id}
use elvis.Routing.AgentId.Fixed.{begins_alnum}
use elvis.Routing.SessionKey.{
  DmScope, per_peer, per_channel_peer, RoutePeer, SessionKeyParams, ◌:+◌,
  build_agent_peer_session_key, normalize_channel, direct_peer_id, resolve_linked_peer_id,
  parse_agent_session_key, is_subagent_session_key, direct_key, scoped_key,
}
use elvis.Routing.SessionKey.RoundTrip.{parse-build_peer}
use elvis.Routing.SessionKey.Isolation.{IsDirect, build-agent_injective, per_peer-isolated}

abbrev alice : RoutePeer
alice = record { kind = codes "direct"; id = codes "Alice" }

abbrev alice_on_discord : RoutePeer
alice_on_discord = record { kind = codes "direct"; id = codes "77" }

abbrev links : List (Text × List Text)
links = (codes "alice", codes "discord:77" ∷ []) ∷ []

abbrev telegram_params : DmScope → SessionKeyParams
telegram_params scope = record {
  agent_id = codes "sales";
  channel = codes "Telegram";
  account_id = [];
  peer = some alice;
  dm_scope = scope;
  identity_links = links;
}

abbrev discord_params : DmScope → SessionKeyParams
discord_params scope = record {
  agent_id = codes "sales";
  channel = codes "discord";
  account_id = [];
  peer = some alice_on_discord;
  dm_scope = scope;
  identity_links = links;
}

sales_id : normalize_agent_id (codes "sales") ≡ codes "sales"
unfolding normalize_agent_id normalize_id trim_space trim_from space_width last_space_width
    is_valid_id to_lower
sales_id = refl

linked : direct_peer_id (discord_params per_peer) (codes "77") ≡ codes "alice"
unfolding direct_peer_id to_lower trim_space trim_from space_width last_space_width
    resolve_linked_peer_id text_eq
linked = refl

scoped_by_channel :
    build_agent_peer_session_key (telegram_params per_channel_peer)
    ≡ codes "agent:sales:telegram:direct:alice"
unfolding build_agent_peer_session_key text_eq trim_space trim_from space_width last_space_width
    direct_key direct_peer_id to_lower resolve_linked_peer_id scoped_key normalize_agent_id
    normalize_id is_valid_id normalize_channel
scoped_by_channel = refl

trimmed_key :
    trim_space (codes "agent:sales:telegram:direct:alice")
    ≡ codes "agent:sales:telegram:direct:alice"
unfolding trim_space trim_from space_width last_space_width
trimmed_key = refl

nested_subagent : is_subagent_session_key (codes "agent:sales:SubAgent:1") ≡ true
unfolding is_subagent_session_key trim_space trim_from space_width last_space_width has_prefix
    to_lower parse_agent_session_key split_n cut text_eq
nested_subagent = refl

alnum_sales : begins_alnum (normalize_agent_id (codes "sales")) ≡ true
alnum_sales = rw (sales_id) refl

parse-build_peer_example :
    (rest : Text) × (rest ≢ [])
    × (build_agent_peer_session_key (telegram_params per_channel_peer)
        ≡ codes "agent" :+ normalize_agent_id (codes "sales") :+ rest)
    × (parse_agent_session_key (build_agent_peer_session_key (telegram_params per_channel_peer))
        ≡ some (record { agent_id = normalize_agent_id (codes "sales"); rest = rest }))
parse-build_peer_example =
    parse-build_peer (telegram_params per_channel_peer) alnum_sales
      (rw (scoped_by_channel) trimmed_key)

-- The same conversation by another account.
abbrev second_account : SessionKeyParams
second_account = record (telegram_params per_peer) { account_id = codes "second" }

same_key :
    build_agent_peer_session_key (telegram_params per_peer)
    ≡ build_agent_peer_session_key second_account
unfolding build_agent_peer_session_key direct_key elvis.Routing.SessionKey.group_key direct_peer_id
    scoped_key
same_key = refl

build-agent_injective_example :
    normalize_agent_id (codes "sales") ≡ normalize_agent_id (codes "sales")
build-agent_injective_example =
    build-agent_injective (telegram_params per_peer) second_account alnum_sales alnum_sales same_key

direct_kind : trim_space (codes "direct") ≡ codes "direct"
unfolding trim_space trim_from space_width last_space_width
direct_kind = refl

IsDirect-telegram : (scope : DmScope) → IsDirect (telegram_params scope) alice
IsDirect-telegram scope = record { from = refl; kind = inr direct_kind }

IsDirect-discord : (scope : DmScope) → IsDirect (discord_params scope) alice_on_discord
IsDirect-discord scope = record { from = refl; kind = inr direct_kind }

per_peer-isolated_example :
    (build_agent_peer_session_key (telegram_params per_peer)
      ≡ build_agent_peer_session_key (discord_params per_peer))
    ↔ (direct_peer_id (telegram_params per_peer) (codes "Alice")
        ≡ direct_peer_id (discord_params per_peer) (codes "77"))
per_peer-isolated_example =
    per_peer-isolated (telegram_params per_peer) (discord_params per_peer) alice alice_on_discord
      (IsDirect-telegram per_peer) (IsDirect-discord per_peer) refl refl refl alnum_sales

named_peer : direct_peer_id (telegram_params per_channel_peer) (codes "Alice") ≡ codes "alice"
unfolding direct_peer_id to_lower trim_space trim_from space_width last_space_width
    resolve_linked_peer_id text_eq
named_peer = refl

telegram_channel : normalize_channel (codes "Telegram") ≡ codes "telegram"
unfolding normalize_channel trim_space trim_from to_lower space_width last_space_width
telegram_channel = refl
