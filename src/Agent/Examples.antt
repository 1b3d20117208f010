-- ===== src/Agent/Examples.antt =====
-- The agents and the loop of pkg/agent at concrete messages.
use elvis.Base.{
  ◌+◌, ◌≡◌, ◌≢◌, refl, true, false, List, [], ◌∷◌, ◌++◌, map, none, some, Text, codes, lookup,
  length, drop, text_eq, arith, insert, not, leb,
}
use elvis.Strings.Paths.{join_path, with_slashes, clean, cleaned, components_from, up}
use elvis.Strings.Sample.{ascii_only}
use elvis.Session.{
  Message, SessionManager, plain_message, get_history, get_summary, add_message, truncate_history,
  set_summary, add_full_message,
}
use elvis.Providers.ToolCalls.Examples.{quoted, call}
use elvis.Routing.SessionKey.{unset}
use elvis.Routing.Route.{Config, RouteInput, resolve_route}
use elvis.Routing.Route.Agents.{AllAlnum}
use elvis.Agent.Context.{
  role_user, role_assistant, role_tool, sanitize_history_for_provider, sanitize_from, keeps,
  answers_call, may_call,
}
use elvis.Agent.Sanitize.{idle, accepts, sanitize-accepted}
use elvis.Agent.Instance.{AgentSettings, AgentDefaults, AgentInstance, new_agent_instance}
use elvis.Agent.Registry.{
  Registry, get_agent, can_spawn_subagent, new_agent_registry, register_agents,
}
use elvis.Agent.Registry.Found.{routed_of, registry_of, route-registered}
use elvis.Agent.Compress.{force_compression}
use elvis.Agent.Compress.Shorter.{compressed, lost, force_compression-history}
use elvis.Agent.Summary.{
  new_summary, summarize_session, valid_messages, final_summary, summarize_batch,
}
use elvis.Agent.Summary.History.{left_by, summarize_session-history}
use elvis.Routing.AgentId.{normalize_agent_id, normalize_id, is_valid_id}
use elvis.Strings.{trim_space, trim_from, space_width, last_space_width, to_lower}

abbrev user : Text → Message Text
user text = plain_message role_user text

abbrev asking : Message Text
asking = record (plain_message role_assistant []) { tool_calls = call (codes "1") (codes "f") ∷ [] }

abbrev answer : Message Text
answer = record (plain_message role_tool (codes "done")) { tool_call_id = codes "1" }

-- The first tool message answers nothing; the others are in order.
abbrev history : List (Message Text)
history = answer ∷ user (codes "a") ∷ asking ∷ answer ∷ user (codes "b") ∷ []

orphan_dropped : sanitize_history_for_provider history ≡ drop 1 history
unfolding sanitize_history_for_provider sanitize_from keeps text_eq answers_call may_call
orphan_dropped = refl

-- The tool message that answers a dropped call is dropped too.
broken_dropped :
    sanitize_history_for_provider (asking ∷ answer ∷ user (codes "b") ∷ []) ≡ user (codes "b") ∷ []
unfolding sanitize_history_for_provider sanitize_from keeps text_eq may_call answers_call
broken_dropped = refl

sanitize-accepted_example :
    (accepts idle (sanitize_history_for_provider history) ≡ true)
    × (sanitize_history_for_provider (sanitize_history_for_provider history)
        ≡ sanitize_history_for_provider history)
sanitize-accepted_example = sanitize-accepted history

joined :
    join_path (codes "/home/a/./w//b/../" ∷ [] ∷ codes "sessions" ∷ []) ≡ codes "/home/a/w/sessions"
unfolding join_path with_slashes clean cleaned components_from text_eq up
joined = refl

above : join_path (codes ".." ∷ codes "../w" ∷ []) ≡ codes "../../w"
unfolding join_path with_slashes clean cleaned components_from text_eq up
above = refl

abbrev empty_manager : SessionManager Text
empty_manager = record { sessions = []; storage = [] }

abbrev key_a : Text
key_a = codes "agent:main:a"

abbrev key_b : Text
key_b = codes "agent:main:b"

abbrev five : SessionManager Text
five = record empty_manager {
  sessions =
      (
        key_b,
        record {
          key = key_b;
          messages = history ++ user (codes "c") ∷ [];
          summary = [];
          created = 1;
          updated = 1;
        },
      )
      ∷ [];
}

-- Half of the four messages between the first and the last go.
force_compression-history_example :
    let history = get_history key_b five in
    let after = force_compression 9 key_b five in
    (get_history key_b after.0 ≡ compressed history)
    × (length (get_history key_b after.0) + lost history ≡ length history)
    × (after.1 ≡ not (leb (length history) 4))
force_compression-history_example = force_compression-history 9 key_b five

-- Another message comes while the provider answers: with the one before it, two messages that no
-- summary has are among the four that stay.
summarize_session-history_example :
    get_history key_b
      (summarize_session
        (λ prompt. some (codes "sum"))
        100
        9
        key_b
        (add_message 5 5 key_b role_user (codes "d"))
        five).0
    ≡ left_by
        (new_summary
          (λ prompt. some (codes "sum"))
          100
          (get_history key_b five)
          (get_summary key_b five))
        (get_history key_b (add_message 5 5 key_b role_user (codes "d") five))
summarize_session-history_example =
    summarize_session-history (λ prompt. some (codes "sum")) 100 9 key_b
      (add_message 5 5 key_b role_user (codes "d")) five

-- Five messages come while the provider answers: the first of them is lost, and no summary has it.
abbrev talk : SessionManager Text → SessionManager Text
talk sm = add_message 5 5 key_b role_user (codes "5") (
    add_message 5 5 key_b role_user (codes "4") (
      add_message 5 5 key_b role_user (codes "3") (
        add_message 5 5 key_b role_user (codes "2")
          (add_message 5 5 key_b role_user (codes "1") sm))))

summary_loses :
    get_history key_b (summarize_session (λ prompt. some (codes "sum")) 100 9 key_b talk five).0
    ≡ user (codes "2") ∷ user (codes "3") ∷ user (codes "4") ∷ user (codes "5") ∷ []
unfolding get_history lookup summarize_session new_summary text_eq valid_messages final_summary
    summarize_batch truncate_history set_summary add_message add_full_message insert
summary_loses = refl

abbrev main_settings : AgentSettings
main_settings = record {
  routed = record { id = codes "Main"; default = true };
  name = [];
  workspace = [];
  model = none;
  skills = [];
  subagents = some (record { allow_agents = some (codes "*" ∷ []); model = none });
}

abbrev helper_settings : AgentSettings
helper_settings = record main_settings {
  routed = record { id = codes "Helper"; default = false };
  subagents = none;
}

abbrev both : List AgentSettings
both = main_settings ∷ helper_settings ∷ []

abbrev defaults : AgentDefaults
defaults = record {
  workspace = codes "~/w";
  provider = [];
  model_name = codes "m";
  model = [];
  model_fallbacks = [];
  max_tokens = 0;
  max_tool_iterations = 2;
}

abbrev registry : Registry Text
registry = registry_of (codes "/home/u") (λ dir. none) defaults both

main_spawns : can_spawn_subagent registry (codes "MAIN") (codes "other") ≡ true
unfolding can_spawn_subagent get_agent lookup new_agent_registry register_agents insert text_eq
    normalize_agent_id normalize_id trim_space trim_from space_width last_space_width is_valid_id
    to_lower new_agent_instance
main_spawns = refl

helper_does_not : can_spawn_subagent registry (codes "helper") (codes "main") ≡ false
unfolding can_spawn_subagent get_agent lookup new_agent_registry register_agents insert text_eq
    normalize_agent_id normalize_id trim_space trim_from space_width last_space_width is_valid_id
    to_lower new_agent_instance
helper_does_not = refl

abbrev config : Config
config = record {
  agents = map routed_of both;
  bindings = [];
  dm_scope = unset;
  identity_links = [];
}

abbrev input : RouteInput
input = record {
  channel = codes "irc";
  account_id = [];
  peer = none;
  parent_peer = none;
  guild_id = [];
  team_id = [];
}

alnum : AllAlnum config.agents
unfolding normalize_agent_id normalize_id trim_space trim_from space_width last_space_width
    is_valid_id to_lower
alnum = (refl, (refl, tt))

some_agents : config.agents ≢ []
some_agents = λ e. ground arith

route-registered_example :
    (agent : AgentInstance Text) × (get_agent registry (resolve_route config input).agent_id
      ≡ some agent)
    × (agent.id ≡ (resolve_route config input).agent_id)
route-registered_example =
    route-registered (codes "/home/u") (λ dir. none) defaults both config input some_agents refl
      alnum
