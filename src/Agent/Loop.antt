-- ===== src/Agent/Loop.antt =====
-- pkg/agent/loop.go: how the agent loop answers a message. The bus is open. What the surroundings answer
-- while a message is processed is a record `Surroundings`; logs are left out.
pub mod Sessions
use elvis.Base.{
  ℕ, Bool, true, false, ◌&&◌, ◌||◌, not, List, [], ◌∷◌, ◌++◌, Option, none, some, ◌⊎◌, inl, inr,
  Text, codes, Dict, lookup, insert, any, text_eq, is_nil, if◌then◌else◌,
}
use elvis.Strings.{Unicode, has_prefix, cut}
use elvis.Bus.{InboundMessage, OutboundMessage}
use elvis.Session.{SessionManager, add_message, get_history, get_summary}
use elvis.Providers.Cooldown.{CooldownTracker}
use elvis.Providers.Fallback.{FallbackError}
use elvis.Providers.ToolCalls.{Arguments}
use elvis.Routing.AgentId.{normalize_agent_id}
use elvis.Routing.SessionKey.{RoutePeer, build_agent_main_session_key}
use elvis.Routing.Route.{Config, RouteInput, ResolvedRoute, resolve_route}
use elvis.Agent.Context.{role_user, role_assistant, build_messages}
use elvis.Agent.Instance.{AgentInstance}
use elvis.Agent.Registry.{Registry, get_agent, get_default_agent}
use elvis.Agent.Tools.{is_internal_channel, set_context}
use elvis.Agent.Summary.{needs_summary}
use elvis.Agent.Turn.{ProcessOptions, Work, Answers, sessions_of, with_sessions, publish}
use elvis.Agent.Iteration.{LoopEnd, finished, failed, run_llm_iteration}
use elvis.Agent.Commands.{Channels, default_key, handle_command}

-- `last_channels` are the calls of SetLastChannel, in order; `summarizing` are the keys of the summaries
-- under way.
pub record AgentLoop (A : Type 0) : Type 0 where
  pub registry : Registry A
  pub tracker : CooldownTracker
  pub outbound : List OutboundMessage
  pub saved : List Text
  pub last_channels : List Text
  pub summarizing : List Text

-- `rule` is what the rule engine answers to a text: a response that is not empty, or none.
pub record Surroundings (A : Type 0) : Type 0 where
  pub answers : ℕ → Answers A
  pub now : ℕ
  pub static_prompt : Text
  pub clock : Text
  pub channels : Channels
  pub rule : Text → Option Text

abbrev or_response : Text → Text → Text
or_response content default_response = if is_nil content then default_response else content

module _ {A : Type 0} where
  -- An agent with the key under which it stands in the registry.
  unfoldable pub select_agent : ⦃u : Unicode⦄ → Registry A → Text → Option (Text × AgentInstance A)
  select_agent registry agent_id = elim (get_agent registry agent_id) [
    | some agent ↦ some (normalize_agent_id agent_id, agent)
    | none ↦ elim (get_default_agent registry) [
      | none ↦ none
      | some agent ↦ some (default_key registry, agent)
    ]
  ]

  -- Step 0 of runAgentLoop.
  unfoldable pub record_last_channel : ProcessOptions → AgentLoop A → AgentLoop A
  record_last_channel opts al =
      if is_nil opts.channel || is_nil opts.chat_id
      then al
      else if is_internal_channel opts.channel
      then al
      else record al {
        last_channels = al.last_channels ++ (opts.channel ++ b':' ∷ opts.chat_id) ∷ [];
      }

  -- A summary is begun if it is due and none is under way for the agent and the session: the goroutine
  -- that this starts is `summarize_in_background` of Agent/Background.
  unfoldable pub maybe_summarize : Text → AgentInstance A → AgentLoop A → AgentLoop A
  maybe_summarize session_key agent al =
      let key = agent.id ++ b':' ∷ session_key in
      if not (needs_summary agent.context_window (get_history session_key agent.sessions))
      then al
      else if any (text_eq key) al.summarizing
      then al
      else record al { summarizing = al.summarizing ++ key ∷ [] }

  -- Steps 1 to 3 of runAgentLoop: the messages, and the user's message in the session.
  unfoldable pub prepare : Surroundings A → ProcessOptions → AgentInstance A → AgentLoop A → Work A
  prepare s opts agent al =
      let history = if opts.no_history then [] else get_history opts.session_key agent.sessions in
      let summary = if opts.no_history then [] else get_summary opts.session_key agent.sessions in
      record {
        agent = record agent {
          message_tool = set_context opts.channel opts.chat_id agent.message_tool;
          sessions =
              add_message s.now s.now opts.session_key role_user opts.user_message agent.sessions;
        };
        tracker = al.tracker;
        outbound = al.outbound;
        saved = al.saved;
        messages =
            build_messages s.static_prompt s.clock history summary opts.user_message opts.channel
              opts.chat_id;
      }

  -- Steps 6 to 8, for the final content.
  unfoldable pub conclude :
      Surroundings A → ProcessOptions → Text → Text → Work A → AgentLoop A → AgentLoop A
  conclude s opts key content w al =
      let agent = record (w.agent) {
        sessions = add_message s.now s.now opts.session_key role_assistant content w.agent.sessions;
      } in
      let stored = record al {
        registry = insert key agent al.registry;
        tracker = w.tracker;
        outbound = w.outbound;
        saved = w.saved ++ opts.session_key ∷ [];
      } in
      let summarized =
        if opts.enable_summary then maybe_summarize opts.session_key agent stored else stored in
      if opts.send_response
      then record summarized {
        outbound =
            summarized.outbound
            ++ record { channel = opts.channel; chat_id = opts.chat_id; content = content } ∷ [];
      }
      else summarized

module _ {A : Type 0} ⦃u : Unicode⦄ ⦃j : Arguments A⦄ (fallback_text : FallbackError → Text) where
  -- The right side is an error.
  unfoldable pub run_agent_loop :
      Surroundings A
      → ProcessOptions
      → Text
      → AgentInstance A
      → AgentLoop A
      → AgentLoop A × (Text ⊎ Text)
  run_agent_loop s opts key agent al =
      let recorded = record_last_channel opts al in
      let (w, end) =
        run_llm_iteration fallback_text s.answers opts agent.max_iterations 0
          (prepare s opts agent recorded) in
      elim end [
        | failed e n ↦ (
          record recorded {
            registry = insert key w.agent recorded.registry;
            tracker = w.tracker;
            outbound = w.outbound;
            saved = w.saved;
          },
          inr (codes "LLM call failed after retries: " ++ e),
        )
        | finished content n ↦
            let final = or_response content opts.default_response in
            (conclude s opts key final w recorded, inl final)
      ]
