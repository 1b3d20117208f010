-- ===== src/Agent/Context.antt =====
-- pkg/agent/context.go: the messages that a model is sent. The static prompt, which is read from the
-- workspace's files, and the text with the time and the runtime are arguments.
use elvis.Base.{
  Bool, true, false, ◌&&◌, ◌||◌, not, List, [], ◌∷◌, ◌++◌, Option, none, some, Text, codes, text_eq,
  is_nil, if◌then◌else◌,
}
use elvis.Strings.{trim_space}
use elvis.Session.{ContentBlock, CacheControl, Message, plain_message}

abbrev pub role_user : Text
role_user = codes "user"

abbrev pub role_system : Text
role_system = codes "system"

abbrev pub role_tool : Text
role_tool = codes "tool"

abbrev pub role_assistant : Text
role_assistant = codes "assistant"

abbrev separator : Text
separator = 10 ∷ 10 ∷ codes "---" ++ 10 ∷ 10 ∷ []

-- The text before the summary, with the dash as the bytes of U+2014.
abbrev summary_text : Text → Text
summary_text summary =
    codes "CONTEXT_SUMMARY: The following is an approximate summary of prior conversation "
    ++ codes "for reference only. It may be incomplete or outdated "
    ++ 0xE2 ∷ 0x80 ∷ 0x94 ∷ codes " always defer to explicit instructions."
    ++ 10 ∷ 10 ∷ summary

abbrev text_block : Text → Option CacheControl → ContentBlock
text_block text cache = record { kind = codes "text"; text = text; cache_control = cache }

abbrev ephemeral : CacheControl
ephemeral = record { kind = codes "ephemeral" }

-- The time and the runtime are the text `clock`.
unfoldable pub build_dynamic_context : Text → Text → Text → Text
build_dynamic_context clock channel chat_id =
    if not (is_nil channel) && not (is_nil chat_id)
    then clock
      ++ 10 ∷ 10 ∷ codes "## Current Session"
      ++ 10 ∷ codes "Channel: "
      ++ channel
      ++ 10 ∷ codes "Chat ID: "
      ++ chat_id
    else clock

module _ {A : Type 0} where
  abbrev pub has_role : Text → Message A → Bool
  has_role role m = text_eq m.role role

  abbrev pub calls_tools : Message A → Bool
  calls_tools m = not (is_nil m.tool_calls)

  -- Whether the last message before the tool messages at the end is an assistant's with tool calls.
  -- The messages are given backwards.
  unfoldable pub answers_call : List (Message A) → Bool
  answers_call [] = false
  answers_call (m ∷ before) =
      if has_role role_tool m
      then answers_call before
      else has_role role_assistant m && calls_tools m

  -- Whether an assistant's tool calls may follow. The messages are given backwards.
  unfoldable pub may_call : List (Message A) → Bool
  may_call [] = false
  may_call (m ∷ before) = has_role role_user m || has_role role_tool m

  -- Whether a message is kept after the messages `before`, given backwards.
  unfoldable pub keeps : List (Message A) → Message A → Bool
  keeps before msg =
      if has_role role_system msg
      then false
      else if has_role role_tool msg
      then answers_call before
      else if has_role role_assistant msg
      then if calls_tools msg then may_call before else true
      else true

  -- `before` holds what was kept so far, backwards.
  unfoldable pub sanitize_from : List (Message A) → List (Message A) → List (Message A)
  sanitize_from before [] = []
  sanitize_from before (msg ∷ history) = elim (keeps before msg) [
    | true ↦ msg ∷ sanitize_from (msg ∷ before) history
    | false ↦ sanitize_from before history
  ]

  unfoldable pub sanitize_history_for_provider : List (Message A) → List (Message A)
  sanitize_history_for_provider history = sanitize_from [] history

  unfoldable pub system_message : Text → Text → Text → Message A
  system_message static_prompt dynamic_ctx summary = record {
    role = role_system;
    content =
        static_prompt
        ++ separator
        ++ dynamic_ctx
        ++ (if is_nil summary then [] else separator ++ summary_text summary);
    reasoning_content = [];
    system_parts =
        text_block static_prompt (some ephemeral)
        ∷ text_block dynamic_ctx none
        ∷ (if is_nil summary then [] else text_block (summary_text summary) none ∷ []);
    tool_calls = [];
    tool_call_id = [];
  }

  unfoldable pub build_messages :
      Text → Text → List (Message A) → Text → Text → Text → Text → List (Message A)
  build_messages static_prompt clock history summary current_message channel chat_id =
      system_message static_prompt (build_dynamic_context clock channel chat_id) summary
        ∷ sanitize_history_for_provider history
      ++ (if is_nil (trim_space current_message)
          then []
          else plain_message role_user current_message ∷ [])
