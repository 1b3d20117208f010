-- ===== src/Agent/Iteration.antt =====
-- pkg/agent/loop.go (runLLMIteration): the loop around the model and the tools; logs are left out. The
-- fallback chain is there, as NewAgentLoop makes it.
pub mod Isolation
pub mod Answered
use elvis.Base.{
  ℕ, zero, suc, ◌+◌, Bool, true, false, ◌&&◌, ◌||◌, not, List, [], ◌∷◌, ◌++◌, map, Option, none,
  some, ◌⊎◌, inl, inr, Text, codes, length, text_eq, is_nil, ltb, ◌==◌, if◌then◌else◌,
}
use elvis.Strings.{Unicode, to_lower, contains}
use elvis.Bus.{OutboundMessage}
use elvis.Session.{
  FunctionCall, ToolCall, Message, SessionManager, add_full_message, get_history, get_summary,
}
use elvis.Providers.Cooldown.{CooldownTracker}
use elvis.Providers.Classifier.{RunError, message}
use elvis.Providers.Fallback.{
  FallbackCandidate, FallbackError, FallbackResult, Outcome, success, failure, Reply, response,
  error, Turn, execute,
}
use elvis.Providers.ToolCalls.{Arguments, normalize_tool_call}
use elvis.Agent.Context.{role_assistant, role_tool, build_messages}
use elvis.Agent.Instance.{AgentInstance}
use elvis.Agent.Tools.{ToolResult, ToolRun, is_internal_channel, execute_with_context}
use elvis.Agent.Compress.{force_compression}
use elvis.Agent.Turn.{
  LlmResponse, ProcessOptions, Work, Answers, is_context_error, publish, compress_and_rebuild,
  assistant_message, tool_message, record_message,
}

-- How the loop ends: the content (empty when the iterations are used up) or an error, with the number
-- of iterations.
pub data LoopEnd : Type 0 where
  finished : Text → ℕ → LoopEnd
  failed : Text → ℕ → LoopEnd

-- The result of a tool that goes to the user at once.
abbrev pub forwards : ProcessOptions → ToolResult → Bool
forwards opts r = not r.silent && (not (is_nil r.for_user) && opts.send_response)

module _ {A : Type 0} ⦃j : Arguments A⦄ where
  unfoldable pub run_tool : Answers A → ProcessOptions → ℕ → ToolCall A → Work A → Work A
  run_tool answers opts position tc w =
      let run =
        execute_with_context (answers.tool_result position) tc.name
          (elim tc.arguments [ none ↦ j.empty | some a ↦ a ]) opts.channel opts.chat_id
          w.agent.message_tool in
      let ran = record w {
        agent = record (w.agent) { message_tool = run.tool };
        outbound = w.outbound ++ run.published;
      } in
      let forwarded =
        if forwards opts run.result
        then publish opts.channel opts.chat_id run.result.for_user ran
        else ran in
      record_message answers.now opts.session_key (tool_message tc run.result) forwarded

  unfoldable pub run_tools : Answers A → ProcessOptions → ℕ → List (ToolCall A) → Work A → Work A
  run_tools answers opts position [] w = w
  run_tools answers opts position (tc ∷ calls) w =
      run_tools answers opts (suc position) calls (run_tool answers opts position tc w)

  unfoldable pub use_tools : Answers A → ProcessOptions → LlmResponse A → Work A → Work A
  use_tools answers opts r w =
      let calls = map normalize_tool_call r.tool_calls in
      run_tools answers opts 0 calls
        (record_message answers.now opts.session_key (assistant_message j.marshal r calls) w)

module _ {A : Type 0} ⦃u : Unicode⦄ ⦃j : Arguments A⦄ (fallback_text : FallbackError → Text) where
  abbrev outcome : Outcome (LlmResponse A) → LlmResponse A ⊎ Text
  outcome (success r) = inl r.response
  outcome (failure e) = inr (fallback_text e)

  abbrev direct : Reply (LlmResponse A) → LlmResponse A ⊎ Text
  direct (response r) = inl r
  direct (error e) = inr (message e)

  unfoldable pub call_llm : Answers A → ℕ → Work A → Work A × (LlmResponse A ⊎ Text)
  call_llm answers retry w =
      let candidates = w.agent.candidates in
      let (tracker, out) = execute (map (λ c. (c, answers.turn retry c)) candidates) w.tracker in
      if ltb 1 (length candidates)
      then (record w { tracker = tracker }, outcome out)
      else (w, direct (answers.reply retry))

  -- `left` retries are left after this one.
  unfoldable pub retry_loop :
      Answers A
      → ProcessOptions
      → (left : ℕ) → (retry : ℕ) → Work A
      → Work A × (LlmResponse A ⊎ Text)
  retry_loop answers opts zero retry w = call_llm answers retry w
  retry_loop answers opts (suc left) retry w =
      let (called, result) = call_llm answers retry w in
      elim result [
        | inl r ↦ (called, inl r)
        | inr e ↦ elim (is_context_error e) [
          | false ↦ (called, inr e)
          | true ↦
              retry_loop answers opts left (suc retry)
                (compress_and_rebuild answers opts (retry == 0) called)
        ]
      ]

  -- `left` iterations are left.
  unfoldable pub run_llm_iteration :
      (ℕ → Answers A) → ProcessOptions → (left : ℕ) → (iteration : ℕ) → Work A → Work A × LoopEnd
  run_llm_iteration answers opts zero iteration w = (w, finished [] iteration)
  run_llm_iteration answers opts (suc left) iteration w =
      let (called, result) = retry_loop (answers iteration) opts 2 0 w in
      elim result [
        | inr e ↦ (called, failed e (suc iteration))
        | inl r ↦ elim (is_nil r.tool_calls) [
          | true ↦ (called, finished r.content (suc iteration))
          | false ↦
              run_llm_iteration answers opts left (suc iteration)
                (use_tools (answers iteration) opts r called)
        ]
      ]
