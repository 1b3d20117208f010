-- ===== src/Agent/Turn.antt =====
-- pkg/agent/loop.go (runLLMIteration): the messages that an iteration adds, and the compression before a
-- retry. What the model, the tools and the clock answer in an iteration is a record `Answers`.
use elvis.Base.{
  ℕ, Bool, ◌&&◌, ◌||◌, not, List, [], ◌∷◌, ◌++◌, map, none, some, Text, codes, is_nil,
  if◌then◌else◌,
}
use elvis.Strings.{Unicode, to_lower, contains}
use elvis.Bus.{OutboundMessage}
use elvis.Session.{ToolCall, Message, SessionManager, add_full_message, get_history, get_summary}
use elvis.Providers.Cooldown.{CooldownTracker}
use elvis.Providers.Fallback.{FallbackCandidate, Reply, Turn}
use elvis.Agent.Context.{role_assistant, role_tool, build_messages}
use elvis.Agent.Instance.{AgentInstance}
use elvis.Agent.Tools.{ToolResult, is_internal_channel}
use elvis.Agent.Compress.{force_compression}

pub record LlmResponse (A : Type 0) : Type 0 where
  pub content : Text
  pub reasoning_content : Text
  pub tool_calls : List (ToolCall A)

pub record ProcessOptions : Type 0 where
  pub session_key : Text
  pub channel : Text
  pub chat_id : Text
  pub user_message : Text
  pub default_response : Text
  pub enable_summary : Bool
  pub send_response : Bool
  pub no_history : Bool

-- What the loop changes. `saved` are the keys of the sessions that were saved, in order; `messages` are
-- those that the model is sent.
pub record Work (A : Type 0) : Type 0 where
  pub agent : AgentInstance A
  pub tracker : CooldownTracker
  pub outbound : List OutboundMessage
  pub saved : List Text
  pub messages : List (Message A)

-- In one iteration: the provider's answer in each try, the turns of the fallback chain in each try, the
-- results of the tools in order, the clock, and the parts of the system prompt.
pub record Answers (A : Type 0) : Type 0 where
  pub reply : ℕ → Reply (LlmResponse A)
  pub turn : ℕ → FallbackCandidate → Turn (LlmResponse A)
  pub tool_result : ℕ → ToolResult
  pub now : ℕ
  pub static_prompt : Text
  pub clock : Text

unfoldable pub is_context_error : ⦃u : Unicode⦄ → Text → Bool
is_context_error err_text =
    let msg = to_lower err_text in
    contains msg (codes "token")
    || contains msg (codes "context")
    || contains msg (codes "invalidparameter")
    || contains msg (codes "length")

abbrev pub context_notice : Text
context_notice = codes "Context window exceeded. Compressing history and retrying..."

abbrev content_for_llm : ToolResult → Text
content_for_llm r = if is_nil r.for_llm then elim r.err [ none ↦ [] | some e ↦ e ] else r.for_llm

module _ {A : Type 0} where
  abbrev pub sessions_of : Work A → SessionManager A
  sessions_of w = w.agent.sessions

  abbrev pub with_sessions : SessionManager A → Work A → Work A
  with_sessions sm w = record w { agent = record (w.agent) { sessions = sm } }

  -- The bus is open.
  abbrev pub publish : Text → Text → Text → Work A → Work A
  publish channel chat_id content w = record w {
    outbound =
        w.outbound ++ record { channel = channel; chat_id = chat_id; content = content } ∷ [];
  }

  -- The compression before a retry, and the messages built anew.
  unfoldable pub compress_and_rebuild : Answers A → ProcessOptions → Bool → Work A → Work A
  compress_and_rebuild answers opts first w =
      let noticed =
        if first && not (is_internal_channel opts.channel)
        then publish opts.channel opts.chat_id context_notice w
        else w in
      let (sm, was_saved) = force_compression answers.now opts.session_key (sessions_of noticed) in
      let compressed = with_sessions sm noticed in
      record compressed {
        saved = if was_saved then compressed.saved ++ opts.session_key ∷ [] else compressed.saved;
        messages =
            build_messages answers.static_prompt answers.clock (get_history opts.session_key sm)
              (get_summary opts.session_key sm) [] opts.channel opts.chat_id;
      }

  abbrev pub assistant_call : (A → Text) → ToolCall A → ToolCall A
  assistant_call marshal tc =
      let signature : Text = elim tc.function [ none ↦ [] | some f ↦ f.thought_signature ] in
      record {
        id = tc.id;
        kind = codes "function";
        function = some (record {
          name = tc.name;
          arguments = elim tc.arguments [ none ↦ codes "null" | some a ↦ marshal a ];
          thought_signature = signature;
        });
        name = tc.name;
        arguments = none;
        thought_signature = signature;
        extra_content = tc.extra_content;
      }

  -- `calls` are normalised.
  abbrev pub assistant_message : (A → Text) → LlmResponse A → List (ToolCall A) → Message A
  assistant_message marshal r calls = record {
    role = role_assistant;
    content = r.content;
    reasoning_content = r.reasoning_content;
    system_parts = [];
    tool_calls = map (assistant_call marshal) calls;
    tool_call_id = [];
  }

  abbrev pub tool_message : ToolCall A → ToolResult → Message A
  tool_message tc r = record {
    role = role_tool;
    content = content_for_llm r;
    reasoning_content = [];
    system_parts = [];
    tool_calls = [];
    tool_call_id = tc.id;
  }

  -- A message goes to the model and to the session.
  unfoldable pub record_message : ℕ → Text → Message A → Work A → Work A
  record_message now key m w =
      record (with_sessions (add_full_message now now key m (sessions_of w)) w) {
        messages = w.messages ++ m ∷ [];
      }
