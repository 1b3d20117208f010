-- ===== src/Agent/Process.antt =====
-- pkg/agent/loop.go (processMessage, processSystemMessage, Run): an inbound message from its channel to
-- the response.
pub mod Replies
use elvis.Base.{
  ℕ, Bool, true, false, ◌&&◌, ◌||◌, not, List, [], ◌∷◌, ◌++◌, Option, none, some, ◌⊎◌, inl, inr,
  Text, codes, Dict, lookup, insert, any, text_eq, is_nil, if◌then◌else◌,
}
use elvis.Strings.{Unicode, has_prefix, cut}
use elvis.Bus.{InboundMessage, OutboundMessage}
use elvis.Session.{SessionManager, add_message, get_history, get_summary}
use elvis.Providers.Cooldown.{CooldownTracker}
use elvis.Providers.Fallback.{FallbackError}
use elvis.Providers.ToolCalls.{Arguments}
use elvis.Routing.AgentId.{normalize_agent_id}
use elvis.Routing.SessionKey.{RoutePeer, build_agent_main_session_key}
use elvis.Routing.Route.{Config, RouteInput, ResolvedRoute, resolve_route}
use elvis.Agent.Context.{role_user, role_assistant, build_messages}
use elvis.Agent.Instance.{AgentInstance}
use elvis.Agent.Registry.{Registry, get_agent, get_default_agent}
use elvis.Agent.Tools.{is_internal_channel, set_context}
use elvis.Agent.Summary.{needs_summary}
use elvis.Agent.Turn.{ProcessOptions, Work, Answers, sessions_of, with_sessions, publish}
use elvis.Agent.Iteration.{LoopEnd, finished, failed, run_llm_iteration}
use elvis.Agent.Commands.{Channels, default_key, handle_command}
use elvis.Agent.Loop.{AgentLoop, Surroundings, select_agent, run_agent_loop}

abbrev no_response : Text
no_response = codes "I've completed processing but have no response to give."

abbrev metadata : Text → InboundMessage → Text
metadata key msg = elim (lookup key msg.metadata) [ none ↦ [] | some v ↦ v ]

unfoldable pub extract_peer : InboundMessage → Option RoutePeer
extract_peer msg =
    let kind = metadata (codes "peer_kind") msg in
    let id = metadata (codes "peer_id") msg in
    if is_nil kind
    then none
    else some (record {
      kind = kind;
      id =
          if is_nil id
          then if text_eq kind (codes "direct") then msg.sender_id else msg.chat_id
          else id;
    })

unfoldable pub extract_parent_peer : InboundMessage → Option RoutePeer
extract_parent_peer msg =
    let kind = metadata (codes "parent_peer_kind") msg in
    let id = metadata (codes "parent_peer_id") msg in
    if is_nil kind || is_nil id then none else some (record { kind = kind; id = id })

abbrev pub route_input : InboundMessage → RouteInput
route_input msg = record {
  channel = msg.channel;
  account_id = metadata (codes "account_id") msg;
  peer = extract_peer msg;
  parent_peer = extract_parent_peer msg;
  guild_id = metadata (codes "guild_id") msg;
  team_id = metadata (codes "team_id") msg;
}

-- The routed session key, unless the message brings a key of an agent.
unfoldable pub pick_session_key : ResolvedRoute → InboundMessage → Text
pick_session_key route msg =
    if not (is_nil msg.session_key) && has_prefix msg.session_key (codes "agent:")
    then msg.session_key
    else route.session_key

-- The channel and the chat that a system message came from: "channel:chat" or a chat.
unfoldable pub origin : Text → Text × Text
origin chat_id = elim (cut b':' chat_id) [
  | none ↦ (codes "cli", chat_id)
  | some p ↦ if is_nil p.0 then (codes "cli", chat_id) else p
]

abbrev pub message_options : Text → InboundMessage → ProcessOptions
message_options session_key msg = record {
  session_key = session_key;
  channel = msg.channel;
  chat_id = msg.chat_id;
  user_message = msg.content;
  default_response = no_response;
  enable_summary = true;
  send_response = false;
  no_history = false;
}

abbrev pub response_text : Text ⊎ Text → Text
response_text (inl text) = text
response_text (inr e) = codes "Error processing message: " ++ e

-- Whether the default agent's tool "message" counts as having sent.
unfoldable pub already_sent : {A : Type 0} → Registry A → Bool
already_sent registry = elim (get_default_agent registry) [
  | none ↦ false
  | some agent ↦ agent.message_tool.sent_in_round
]

module _ {A : Type 0} ⦃u : Unicode⦄ ⦃j : Arguments A⦄ (fallback_text : FallbackError → Text) where
  -- A registry without agents has no answer: Go would stop at a nil pointer there.
  unfoldable pub process_system_message :
      Surroundings A → InboundMessage → AgentLoop A → AgentLoop A × (Text ⊎ Text)
  process_system_message s msg al =
      let (channel, chat_id) = origin msg.chat_id in
      if is_internal_channel channel then (al, inl []) else elim (get_default_agent al.registry) [
        | none ↦ (al, inl [])
        | some agent ↦
            run_agent_loop fallback_text s
              (record {
                session_key = build_agent_main_session_key agent.id;
                channel = channel;
                chat_id = chat_id;
                user_message = codes "[System: " ++ msg.sender_id ++ codes "] " ++ msg.content;
                default_response = codes "Background task completed.";
                enable_summary = false;
                send_response = true;
                no_history = false;
              })
              (default_key al.registry) agent al
      ]

  -- A message that is no system message and no command.
  unfoldable pub process_routed :
      Config → Surroundings A → InboundMessage → AgentLoop A → AgentLoop A × (Text ⊎ Text)
  process_routed cfg s msg al =
      let route = resolve_route cfg (route_input msg) in
      elim (select_agent al.registry route.agent_id) [
        | none ↦ (al, inl [])
        | some (key, agent) ↦ elim (s.rule msg.content) [
          | some reply ↦ (al, inl reply)
          | none ↦
              run_agent_loop fallback_text s (message_options (pick_session_key route msg) msg) key
                agent al
        ]
      ]

  unfoldable pub process_message :
      Config → Surroundings A → InboundMessage → AgentLoop A → AgentLoop A × (Text ⊎ Text)
  process_message cfg s msg al =
      if text_eq msg.channel (codes "system")
      then process_system_message s msg al
      else let (registry, reply) = handle_command al.registry s.channels msg.channel msg.content in
        elim reply [
          | some text ↦ (record al { registry = registry }, inl text)
          | none ↦ process_routed cfg s msg al
        ]

  -- One round of Run: the response is published unless it is empty or counts as sent.
  unfoldable pub answer_message :
      Config → Surroundings A → InboundMessage → AgentLoop A → AgentLoop A
  answer_message cfg s msg al =
      let (processed, result) = process_message cfg s msg al in
      if is_nil (response_text result)
      then processed
      else if already_sent processed.registry
      then processed
      else record processed {
        outbound =
            processed.outbound
            ++ record {
              channel = msg.channel;
              chat_id = msg.chat_id;
              content = response_text result;
            }
              ∷ [];
      }

  -- ProcessHeartbeat
  unfoldable pub process_heartbeat :
      Surroundings A → Text → Text → Text → AgentLoop A → AgentLoop A × (Text ⊎ Text)
  process_heartbeat s content channel chat_id al = elim (get_default_agent al.registry) [
    | none ↦ (al, inl [])
    | some agent ↦
        run_agent_loop fallback_text s
          (record {
            session_key = codes "heartbeat";
            channel = channel;
            chat_id = chat_id;
            user_message = content;
            default_response = no_response;
            enable_summary = false;
            send_response = false;
            no_history = true;
          })
          (default_key al.registry) agent al
  ]

  -- ProcessDirectWithChannel
  unfoldable pub process_direct :
      Config
      → Surroundings A
      → Text
      → Text
      → Text
      → Text
      → AgentLoop A
      → AgentLoop A × (Text ⊎ Text)
  process_direct cfg s content session_key channel chat_id al =
      process_message cfg s
        (record {
          channel = channel;
          sender_id = codes "cron";
          chat_id = chat_id;
          content = content;
          media = [];
          session_key = session_key;
          metadata = [];
        })
        al
