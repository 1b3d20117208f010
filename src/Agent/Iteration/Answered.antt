-- ===== src/Agent/Iteration/Answered.antt =====
-- pkg/agent/loop.go: what an iteration with tool calls adds to the messages and to the session.
use elvis.Base.{
  ℕ, suc, ◌≡◌, refl, sym, ap, ◌∙◌, Bool, true, false, List, [], ◌∷◌, ◌++◌, append_assoc, append-nil,
  map, none, some, Text, text_eq_refl, if◌then◌else◌,
}
use elvis.Session.{Message, ToolCall, SessionManager, get_history, add_full_message}
use elvis.Session.Views.{
  View, add, effect, run_call, view, view_history, get_history-view, view-run_call,
}
use elvis.Providers.ToolCalls.{Arguments, normalize_tool_call}
use elvis.Agent.Tools.{ToolRun, ToolResult, execute_with_context}
use elvis.Agent.Turn.{
  LlmResponse, ProcessOptions, Work, Answers, sessions_of, publish, assistant_message, tool_message,
  record_message,
}
use elvis.Agent.Iteration.{forwards, run_tool, run_tools, use_tools}

module _ {A : Type 0} where
  history-add :
      (now : ℕ) (key : Text) (m : Message A) (sm : SessionManager A)
      → get_history key (add_full_message now now key m sm) ≡ get_history key sm ++ m ∷ []
  unfolding run_call
  history-add now key m sm =
      get_history-view key _
      ∙ ap view_history (
          view-run_call (add now now key m) key sm
          ∙ ap (λ b. if b then effect (add now now key m) (view key sm) else view key sm)
              (text_eq_refl key))
      ∙ go (view key sm)
      ∙ ap (λ h. h ++ m ∷ []) (sym (get_history-view key sm))
    where
      go : (v : View A) → view_history (effect (add now now key m) v) ≡ view_history v ++ m ∷ []
      go none = refl
      go (some v) = refl

  -- Messages that are added to what the model is sent and, alike, to a session.
  abbrev pub Adds : Text → List (Message A) → Work A → Work A → Type 0
  Adds key ms before after =
      (after.messages ≡ before.messages ++ ms)
      × (get_history key (sessions_of after) ≡ get_history key (sessions_of before) ++ ms)

  Adds-trans :
      (key : Text) (ms ns : List (Message A)) (x y z : Work A)
      → Adds key ms x y
      → Adds key ns y z
      → Adds key (ms ++ ns) x z
  Adds-trans key ms ns x y z (a, b) (c, d) = (
    c ∙ ap (λ h. h ++ ns) a ∙ append_assoc x.messages ms ns,
    d ∙ ap (λ h. h ++ ns) b ∙ append_assoc (get_history key (sessions_of x)) ms ns,
  )

  record-Adds :
      (now : ℕ) (key : Text) (m : Message A) (w : Work A)
      → Adds key (m ∷ []) w (record_message now key m w)
  unfolding record_message
  record-Adds now key m w = (refl, history-add now key m (sessions_of w))

  module _ ⦃j : Arguments A⦄ (answers : Answers A) (opts : ProcessOptions) where
    run_tool-Adds :
        (position : ℕ) (tc : ToolCall A) (w : Work A)
        → (r : ToolResult) × Adds opts.session_key
            (tool_message tc r ∷ [])
            w
            (run_tool answers opts position tc w)
    unfolding run_tool
    run_tool-Adds position tc w = (run.result, go (forwards opts run.result))
      where
        run : ToolRun
        run =
            execute_with_context (answers.tool_result position) tc.name
              (elim tc.arguments [ none ↦ j.empty | some a ↦ a ]) opts.channel opts.chat_id
              w.agent.message_tool

        ran : Work A
        ran = record w {
          agent = record (w.agent) { message_tool = run.tool };
          outbound = w.outbound ++ run.published;
        }

        go :
            (b : Bool)
            → Adds opts.session_key (tool_message tc run.result ∷ []) w (
                record_message answers.now opts.session_key
                  (tool_message tc run.result)
                  (if b then publish opts.channel opts.chat_id run.result.for_user ran else ran))
        go true =
            record-Adds answers.now opts.session_key (tool_message tc run.result)
              (publish opts.channel opts.chat_id run.result.for_user ran)
        go false = record-Adds answers.now opts.session_key (tool_message tc run.result) ran

-- Tool messages that answer calls: one for each, in order, with the call's ID.
abbrev pub Answering : {A : Type 0} (calls : List (ToolCall A)) (ms : List (Message A)) → Type 0
Answering [] [] = Unit
Answering (tc ∷ calls) (m ∷ ms) = ((r : ToolResult) × (m ≡ tool_message tc r)) × Answering calls ms
Answering _ _ = ⊥

module _ {A : Type 0} ⦃j : Arguments A⦄ (answers : Answers A) (opts : ProcessOptions) where
  run_tools-Adds :
      (position : ℕ) (calls : List (ToolCall A)) (w : Work A)
      → (ms : List (Message A)) × Answering calls ms
        × Adds opts.session_key ms w (run_tools answers opts position calls w)
  unfolding run_tools
  run_tools-Adds position [] w = ([], tt, (sym (append-nil _), sym (append-nil _)))
  run_tools-Adds position (tc ∷ calls) w =
      let (r, one) = run_tool-Adds answers opts position tc w in
      let ran = run_tool answers opts position tc w in
      let (ms, answering, rest) = run_tools-Adds (suc position) calls ran in
      (
        tool_message tc r ∷ ms,
        ((r, refl), answering),
        Adds-trans opts.session_key (tool_message tc r ∷ []) ms w ran
            (run_tools answers opts (suc position) calls ran) one rest,
      )

  -- An iteration with tool calls adds the assistant's message with the normalised calls and then, for
  -- each call, in order, exactly one tool message with the call's ID, to what the model is sent and, the
  -- same messages, to the session's history.
  pub use_tools-Answering :
      (r : LlmResponse A) (w : Work A)
      → let calls = map normalize_tool_call r.tool_calls in
        (ms : List (Message A)) × Answering calls ms
        × Adds opts.session_key
            (assistant_message j.marshal r calls ∷ ms)
            w
            (use_tools answers opts r w)
  unfolding use_tools
  use_tools-Answering r w =
      let calls = map normalize_tool_call r.tool_calls in
      let m = assistant_message j.marshal r calls in
      let asked = record_message answers.now opts.session_key m w in
      let (ms, answering, rest) = run_tools-Adds 0 calls asked in
      (
        ms,
        answering,
        Adds-trans opts.session_key (m ∷ []) ms w asked (run_tools answers opts 0 calls asked)
            (record-Adds answers.now opts.session_key m w) rest,
      )
