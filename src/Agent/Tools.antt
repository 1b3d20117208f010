-- ===== src/Agent/Tools.antt =====
-- pkg/agent/loop.go and pkg/tools: one call of a tool. The tool "message" of pkg/tools/message.go is
-- modelled; what any other tool returns, or the error for an unknown name, is an argument.
use elvis.Base.{
  Bool, true, false, ◌&&◌, not, List, [], ◌∷◌, ◌++◌, Option, none, some, Text, codes, any, text_eq,
  is_nil, if◌then◌else◌,
}
use elvis.Bus.{OutboundMessage}
use elvis.Providers.ToolCalls.{Arguments}
use elvis.Agent.Instance.{MessageTool}

pub record ToolResult : Type 0 where
  pub for_llm : Text
  pub for_user : Text
  pub silent : Bool
  pub is_error : Bool
  pub err : Option Text

-- pkg/constants/channels.go
unfoldable pub is_internal_channel : Text → Bool
is_internal_channel channel =
    any (text_eq channel) (codes "cli" ∷ codes "system" ∷ codes "subagent" ∷ [])

unfoldable pub set_context : Text → Text → MessageTool → MessageTool
set_context channel chat_id tool = record tool {
  default_channel = channel;
  default_chat_id = chat_id;
  sent_in_round = false;
}

abbrev failed_result : Text → ToolResult
failed_result text = record {
  for_llm = text;
  for_user = [];
  silent = false;
  is_error = true;
  err = none;
}

-- `none` is no string or none of that name, which `args[key].(string)` makes an empty one.
abbrev or_empty : Option Text → Text
or_empty none = []
or_empty (some t) = t

abbrev or_text : Text → Text → Text
or_text [] d = d
or_text (c ∷ t) d = c ∷ t

-- What a call of a tool changes: the tool "message", and what is published.
pub record ToolRun : Type 0 where
  pub tool : MessageTool
  pub published : List OutboundMessage
  pub result : ToolResult

abbrev send_message : MessageTool → Text → Text → Text → ToolRun
send_message t channel chat_id content = record {
  tool = record t { sent_in_round = true };
  published = record { channel = channel; chat_id = chat_id; content = content } ∷ [];
  result = record {
    for_llm = codes "Message sent to " ++ channel ++ b':' ∷ chat_id;
    for_user = [];
    silent = true;
    is_error = false;
    err = none;
  };
}

abbrev unsent : MessageTool → Text → ToolRun
unsent t text = record { tool = t; published = []; result = failed_result text }

module _ {A : Type 0} ⦃j : Arguments A⦄ where
  -- The send callback is set, and returns no error.
  unfoldable pub execute_message : A → MessageTool → ToolRun
  execute_message args t =
      let channel = or_text (or_empty (j.string_field args (codes "channel"))) t.default_channel in
      let chat_id = or_text (or_empty (j.string_field args (codes "chat_id"))) t.default_chat_id in
      elim (j.string_field args (codes "content")) [
        | none ↦ unsent t (codes "content is required")
        | some content ↦
            if is_nil channel
            then unsent t (codes "No target channel/chat specified")
            else if is_nil chat_id
            then unsent t (codes "No target channel/chat specified")
            else send_message t channel chat_id content
      ]

  unfoldable pub execute_with_context : ToolResult → Text → A → Text → Text → MessageTool → ToolRun
  execute_with_context other name args channel chat_id t =
      if text_eq name (codes "message")
      then execute_message args (
          if not (is_nil channel) && not (is_nil chat_id) then set_context channel chat_id t else t)
      else record { tool = t; published = []; result = other }
