-- ===== src/Agent/Iteration/Isolation.antt =====
-- pkg/agent/loop.go: the iterations of one session against the other sessions of the agent.
use elvis.Base.{
  ℕ, zero, suc, ◌&&◌, ◌≡◌, refl, ap, ◌∙◌, Bool, true, false, ◌⊎◌, inl, inr, none, some, List, [],
  ◌∷◌, ◌++◌, map, Text, text_eq, is_nil, not, ltb, ◌==◌, leb, length, if◌then◌else◌,
}
use elvis.Strings.{Unicode}
use elvis.Session.{Message, SessionManager, ToolCall, get_history, set_history}
use elvis.Session.Views.{Call, add, replace, key_of, effect, run_call, view, view-run_call}
use elvis.Providers.Cooldown.{CooldownTracker}
use elvis.Providers.Fallback.{FallbackError}
use elvis.Providers.ToolCalls.{Arguments, normalize_tool_call}
use elvis.Agent.Tools.{ToolRun, is_internal_channel, execute_with_context}
use elvis.Agent.Compress.{force_compression, compress_history}
use elvis.Agent.Turn.{
  LlmResponse, ProcessOptions, Work, Answers, is_context_error, sessions_of, context_notice,
  compress_and_rebuild, tool_message, record_message, publish,
}
use elvis.Agent.Iteration.{
  LoopEnd, finished, failed, forwards, call_llm, retry_loop, run_tool, run_tools, use_tools,
  run_llm_iteration,
}

module _ {A : Type 0} (other : Text) where
  abbrev pub Kept : SessionManager A → SessionManager A → Type 0
  Kept before after = view other after ≡ view other before

  pub call-Kept :
      (c : Call A) (sm : SessionManager A)
      → text_eq (key_of c) other ≡ false
      → Kept sm (run_call c sm)
  call-Kept c sm ne =
      view-run_call c other sm ∙ ap (λ b. if b then effect c (view other sm) else view other sm) ne

  force-Kept :
      (now : ℕ) (key : Text) (sm : SessionManager A)
      → text_eq key other ≡ false
      → Kept sm (force_compression now key sm).0
  unfolding force_compression run_call
  force-Kept now key sm ne = go (leb (length (get_history key sm)) 4)
    where
      replaced : SessionManager A
      replaced = set_history now key (compress_history (get_history key sm)) sm

      pair : SessionManager A → Bool → SessionManager A × Bool
      pair s b = (s, b)

      go : (b : Bool) → Kept sm (if b then pair sm false else pair replaced true).0
      go true = refl
      go false = call-Kept (replace now key (compress_history (get_history key sm))) sm ne

module _ {A : Type 0} (other : Text) (opts : ProcessOptions)
    (ne : text_eq opts.session_key other ≡ false) where
  -- The other session is as it was.
  abbrev Same : Work A → Work A → Type 0
  Same before after = Kept other (sessions_of before) (sessions_of after)

  record-Same :
      (now : ℕ) (m : Message A) (w : Work A) → Same w (record_message now opts.session_key m w)
  unfolding record_message run_call
  record-Same now m w = call-Kept other (add now now opts.session_key m) (sessions_of w) ne

  compress-Same :
      (answers : Answers A) (first : Bool) (w : Work A)
      → Same w (compress_and_rebuild answers opts first w)
  unfolding compress_and_rebuild
  compress-Same answers first w = go (first && not (is_internal_channel opts.channel))
    where
      after : Work A → SessionManager A
      after x = (force_compression answers.now opts.session_key (sessions_of x)).0

      go :
          (b : Bool)
          → Kept other
              (sessions_of w)
              (after (if b then publish opts.channel opts.chat_id context_notice w else w))
      go true = force-Kept other answers.now opts.session_key (sessions_of w) ne
      go false = force-Kept other answers.now opts.session_key (sessions_of w) ne

  module _ ⦃u : Unicode⦄ ⦃j : Arguments A⦄ (fallback_text : FallbackError → Text) where
    call_llm-Same :
        (answers : Answers A) (retry : ℕ) (w : Work A)
        → Same w (call_llm fallback_text answers retry w).0
    unfolding call_llm
    call_llm-Same answers retry w = go (ltb 1 (length w.agent.candidates)) _ _ _
      where
        pair : Work A → LlmResponse A ⊎ Text → Work A × (LlmResponse A ⊎ Text)
        pair x y = (x, y)

        go :
            (b : Bool) (tracker : CooldownTracker) (x y : LlmResponse A ⊎ Text)
            → Same w (if b then pair (record w { tracker = tracker }) x else pair w y).0
        go true tracker x y = refl
        go false tracker x y = refl

    retry-Same :
        (answers : Answers A) (left retry : ℕ) (w : Work A)
        → Same w (retry_loop fallback_text answers opts left retry w).0
    unfolding retry_loop
    retry-Same answers zero retry w = call_llm-Same answers retry w
    retry-Same answers (suc left) retry w =
        go (retry-Same answers left (suc retry) again ∙ compress-Same answers (retry == 0) called)
          (call_llm fallback_text answers retry w).1
        ∙ call_llm-Same answers retry w
      where
        called : Work A
        called = (call_llm fallback_text answers retry w).0

        again : Work A
        again = compress_and_rebuild answers opts (retry == 0) called

        pair : Work A → LlmResponse A ⊎ Text → Work A × (LlmResponse A ⊎ Text)
        pair x y = (x, y)

        branch : Bool → Text → Work A × (LlmResponse A ⊎ Text)
        branch b e = elim b [
          | false ↦ pair called (inr e)
          | true ↦ retry_loop fallback_text answers opts left (suc retry) again
        ]

        choose :
            (b : Bool) (e : Text)
            → Same called (retry_loop fallback_text answers opts left (suc retry) again).0
            → Same called (branch b e).0
        choose true e h = h
        choose false e h = refl

        go :
            Same called (retry_loop fallback_text answers opts left (suc retry) again).0
            → (x : LlmResponse A ⊎ Text)
            → Same called
                (elim x as (λ _. Work A × (LlmResponse A ⊎ Text)) [
                  | inl r ↦ pair called (inl r)
                  | inr e ↦ branch (is_context_error e) e
                ]).0
        go h (inl r) = refl
        go h (inr e) = choose (is_context_error e) e h

    run_tool-Same :
        (answers : Answers A) (position : ℕ) (tc : ToolCall A) (w : Work A)
        → Same w (run_tool answers opts position tc w)
    unfolding run_tool
    run_tool-Same answers position tc w = go (forwards opts run.result) run
      where
        run : ToolRun
        run =
            execute_with_context (answers.tool_result position) tc.name
              (elim tc.arguments [ none ↦ j.empty | some a ↦ a ]) opts.channel opts.chat_id
              w.agent.message_tool

        ran : ToolRun → Work A
        ran x = record w {
          agent = record (w.agent) { message_tool = x.tool };
          outbound = w.outbound ++ x.published;
        }

        go :
            (b : Bool) (x : ToolRun)
            → Same w (
                record_message answers.now opts.session_key (tool_message tc x.result) (
                  if b then publish opts.channel opts.chat_id x.result.for_user (ran x) else ran x))
        go true x =
            record-Same answers.now (tool_message tc x.result)
              (publish opts.channel opts.chat_id x.result.for_user (ran x))
        go false x = record-Same answers.now (tool_message tc x.result) (ran x)

    run_tools-Same :
        (answers : Answers A) (position : ℕ) (calls : List (ToolCall A)) (w : Work A)
        → Same w (run_tools answers opts position calls w)
    unfolding run_tools
    run_tools-Same answers position [] w = refl
    run_tools-Same answers position (tc ∷ calls) w =
        run_tools-Same answers (suc position) calls (run_tool answers opts position tc w)
        ∙ run_tool-Same answers position tc w

    use_tools-Same :
        (answers : Answers A) (r : LlmResponse A) (w : Work A) → Same w (use_tools answers opts r w)
    unfolding use_tools
    use_tools-Same answers r w =
        run_tools-Same answers 0 (map normalize_tool_call r.tool_calls) _
        ∙ record-Same answers.now _ w

    pub iteration-Same :
        (answers : ℕ → Answers A) (left iteration : ℕ) (w : Work A)
        → Same w (run_llm_iteration fallback_text answers opts left iteration w).0
    unfolding run_llm_iteration
    iteration-Same answers zero iteration w = refl
    iteration-Same answers (suc left) iteration w =
        go (retry_loop fallback_text (answers iteration) opts 2 0 w).1 (λ r.
          iteration-Same answers left (suc iteration) (used r)
          ∙ use_tools-Same (answers iteration) r called)
        ∙ retry-Same (answers iteration) 2 0 w
      where
        called : Work A
        called = (retry_loop fallback_text (answers iteration) opts 2 0 w).0

        used : LlmResponse A → Work A
        used r = use_tools (answers iteration) opts r called

        next : LlmResponse A → Work A × LoopEnd
        next r = run_llm_iteration fallback_text answers opts left (suc iteration) (used r)

        pair : Work A → LoopEnd → Work A × LoopEnd
        pair x e = (x, e)

        branch : Bool → LlmResponse A → Work A × LoopEnd
        branch b r = elim b [
          | true ↦ pair called (finished r.content (suc iteration))
          | false ↦ next r
        ]

        choose :
            (b : Bool) (r : LlmResponse A) → Same called (next r).0 → Same called (branch b r).0
        choose true r h = refl
        choose false r h = h

        go :
            (x : LlmResponse A ⊎ Text)
            → ((r : LlmResponse A) → Same called (next r).0)
            → Same called
                (elim x as (λ _. Work A × LoopEnd) [
                  | inr e ↦ pair called (failed e (suc iteration))
                  | inl r ↦ branch (is_nil r.tool_calls) r
                ]).0
        go (inl r) h = choose (is_nil r.tool_calls) r (h r)
        go (inr e) h = refl
