-- ===== src/Agent/Loop/Sessions.antt =====
-- pkg/agent/loop.go (runAgentLoop): the sessions of the agent that answers a message.
use elvis.Base.{
  ◌≡◌, refl, ap, ◌∙◌, Bool, true, false, not, ◌⊎◌, inl, inr, ◌++◌, [], ◌∷◌, some, Text, codes,
  lookup, insert, lookup-insert_self, text_eq, any, if◌then◌else◌,
}
use elvis.Strings.{Unicode}
use elvis.Session.{SessionManager, add_message, plain_message, get_history}
use elvis.Session.Views.{add, run_call}
use elvis.Providers.Fallback.{FallbackError}
use elvis.Providers.ToolCalls.{Arguments}
use elvis.Agent.Context.{role_user, role_assistant}
use elvis.Agent.Instance.{AgentInstance}
use elvis.Agent.Summary.{needs_summary}
use elvis.Agent.Turn.{ProcessOptions, Work, sessions_of}
use elvis.Agent.Iteration.{LoopEnd, finished, failed, run_llm_iteration}
use elvis.Agent.Iteration.Isolation.{Kept, call-Kept, iteration-Same}
use elvis.Agent.Loop.{
  AgentLoop, Surroundings, record_last_channel, maybe_summarize, prepare, or_response, conclude,
  run_agent_loop,
}

module _ {A : Type 0} where
  add_message-Kept :
      (other : Text) (now : _) (key role content : Text) (sm : SessionManager A)
      → text_eq key other ≡ false
      → Kept other sm (add_message now now key role content sm)
  unfolding add_message run_call
  add_message-Kept other now key role content sm ne =
      call-Kept other (add now now key (plain_message role content)) sm ne

  maybe_summarize-registry :
      (key : Text) (agent : AgentInstance A) (al : AgentLoop A)
      → (maybe_summarize key agent al).registry ≡ al.registry
  unfolding maybe_summarize
  maybe_summarize-registry key agent al =
      go (not (needs_summary agent.context_window (get_history key agent.sessions)))
        (any (text_eq (agent.id ++ b':' ∷ key)) al.summarizing)
    where
      go :
          (b c : Bool)
          → (if b then al else if c then al else record al {
            summarizing = al.summarizing ++ (agent.id ++ b':' ∷ key) ∷ [];
          }).registry
            ≡ al.registry
      go true c = refl
      go false true = refl
      go false false = refl

  -- The agent with the final message in its session.
  abbrev concluded : Surroundings A → ProcessOptions → Text → Work A → AgentInstance A
  concluded s opts content w = record (w.agent) {
    sessions = add_message s.now s.now opts.session_key role_assistant content w.agent.sessions;
  }

  conclude-registry :
      (s : Surroundings A) (opts : ProcessOptions) (key content : Text) (w : Work A)
      (al : AgentLoop A)
      → (conclude s opts key content w al).registry
        ≡ insert key (concluded s opts content w) al.registry
  unfolding conclude
  conclude-registry s opts key content w al = go opts.send_response opts.enable_summary
    where
      stored : AgentLoop A
      stored = record al {
        registry = insert key (concluded s opts content w) al.registry;
        tracker = w.tracker;
        outbound = w.outbound;
        saved = w.saved ++ opts.session_key ∷ [];
      }

      summarized : Bool → AgentLoop A
      summarized b =
          if b then maybe_summarize opts.session_key (concluded s opts content w) stored else stored

      same : (b : Bool) → (summarized b).registry ≡ stored.registry
      same true = maybe_summarize-registry opts.session_key (concluded s opts content w) stored
      same false = refl

      go :
          (send b : Bool)
          → (if send
              then record (summarized b) {
                outbound =
                    (summarized b).outbound
                    ++ record { channel = opts.channel; chat_id = opts.chat_id; content = content }
                      ∷ [];
              }
              else summarized b).registry
            ≡ stored.registry
      go true b = same b
      go false b = same b

module _ {A : Type 0} ⦃u : Unicode⦄ ⦃j : Arguments A⦄ (fallback_text : FallbackError → Text)
    (s : Surroundings A) (opts : ProcessOptions) (key : Text) (agent : AgentInstance A)
    (al : AgentLoop A) (other : Text) (ne : text_eq opts.session_key other ≡ false) where
  recorded : AgentLoop A
  recorded = record_last_channel opts al

  prepared : Work A
  prepared = prepare s opts agent recorded

  worked : Work A
  worked = (run_llm_iteration fallback_text s.answers opts agent.max_iterations 0 prepared).0

  worked-Kept : Kept other agent.sessions (sessions_of worked)
  unfolding prepared prepare worked
  worked-Kept =
      iteration-Same other opts ne fallback_text s.answers agent.max_iterations 0 prepared
      ∙ add_message-Kept other s.now opts.session_key role_user opts.user_message agent.sessions ne

  -- The agent that stands under the key after a message was answered, or failed to be: the histories and
  -- the summaries of all its sessions but the message's own are as before.
  pub run_agent_loop-other_session :
      (after : AgentInstance A) × (lookup key
          (run_agent_loop fallback_text s opts key agent al).0.registry
        ≡ some after)
      × Kept other agent.sessions after.sessions
  unfolding run_agent_loop recorded prepared worked
  run_agent_loop-other_session =
      go (run_llm_iteration fallback_text s.answers opts agent.max_iterations 0 prepared).1
    where
      Result : Type 0
      Result = AgentLoop A × (Text ⊎ Text)

      failing : Text → Result
      failing e = (
        record recorded {
          registry = insert key worked.agent recorded.registry;
          tracker = worked.tracker;
          outbound = worked.outbound;
          saved = worked.saved;
        },
        inr (codes "LLM call failed after retries: " ++ e),
      )

      ending : Text → Result
      ending content =
          let final = or_response content opts.default_response in
          (conclude s opts key final worked recorded, inl final)

      go :
          (end : LoopEnd)
          → (after : AgentInstance A) × (lookup key
                (elim end as (λ _. Result) [
                  | failed e n ↦ failing e
                  | finished content n ↦ ending content
                ]).0.registry
              ≡ some after)
            × Kept other agent.sessions after.sessions
      go (failed e n) =
          (worked.agent, lookup-insert_self key worked.agent recorded.registry, worked-Kept)
      go (finished content n) =
          let final = or_response content opts.default_response in
          (
            concluded s opts final worked,
            ap (lookup key) (conclude-registry s opts key final worked recorded)
                ∙ lookup-insert_self key (concluded s opts final worked) recorded.registry,
            add_message-Kept other s.now opts.session_key role_assistant final (sessions_of worked)
                  ne
                ∙ worked-Kept,
          )
