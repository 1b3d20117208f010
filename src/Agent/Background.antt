-- ===== src/Agent/Background.antt =====
-- pkg/agent/loop.go (maybeSummarize): the goroutine that summarises a session beside the loop.
use elvis.Base.{ℕ, List, [], ◌∷◌, ◌++◌, Option, Text, codes, insert, text_eq, if◌then◌else◌}
use elvis.Session.{SessionManager}
use elvis.Agent.Instance.{AgentInstance}
use elvis.Agent.Tools.{is_internal_channel}
use elvis.Agent.Summary.{summarize_session}
use elvis.Agent.Turn.{ProcessOptions}
use elvis.Agent.Loop.{AgentLoop}

abbrev pub memory_notice : Text
memory_notice = codes "Memory threshold reached. Optimizing conversation history..."

-- The key is deleted when the summary is done.
unfoldable pub delete_key : Text → List Text → List Text
delete_key key [] = []
delete_key key (k ∷ keys) =
    let rest = delete_key key keys in if text_eq k key then rest else k ∷ rest

module _ {A : Type 0} where
  -- The goroutine that `maybe_summarize` starts, for the agent with the key `id` in the registry. It runs
  -- beside what the loop does next: `meanwhile` is what others do to the sessions while the provider
  -- answers, and `chat` is the provider.
  unfoldable pub summarize_in_background :
      (Text → Option Text)
      → ℕ
      → (SessionManager A → SessionManager A)
      → ProcessOptions
      → Text
      → AgentInstance A
      → AgentLoop A
      → AgentLoop A
  summarize_in_background chat now meanwhile opts id agent al =
      let key = agent.id ++ b':' ∷ opts.session_key in
      let (sessions, done) =
        summarize_session chat agent.context_window now opts.session_key meanwhile agent.sessions in
      record al {
        registry = insert id (record agent { sessions = sessions }) al.registry;
        outbound =
            if is_internal_channel opts.channel
            then al.outbound
            else al.outbound
              ++ record { channel = opts.channel; chat_id = opts.chat_id; content = memory_notice }
                ∷ [];
        saved = if done then al.saved ++ opts.session_key ∷ [] else al.saved;
        summarizing = delete_key key al.summarizing;
      }
