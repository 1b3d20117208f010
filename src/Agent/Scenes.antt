-- ===== src/Agent/Scenes.antt =====
-- The loop of pkg/agent/loop.go at concrete messages: a round with a tool, and a command after it.
use elvis.Base.{
  ℕ, zero, suc, ◌≡◌, refl, true, false, List, [], ◌∷◌, map, none, some, Text, codes, lookup,
  text_eq,
}
use elvis.Strings.Sample.{ascii_only}
use elvis.Bus.{InboundMessage, OutboundMessage, zero_inbound}
use elvis.Session.{Message}
use elvis.Providers.Cooldown.{new_cooldown_tracker}
use elvis.Providers.Fallback.{FallbackError, Turn, Reply, response}
use elvis.Providers.ToolCalls.{normalize_tool_call}
use elvis.Providers.ToolCalls.Examples.{quoted, call}
use elvis.Routing.SessionKey.{unset}
use elvis.Routing.Route.{Config}
use elvis.Agent.Instance.{AgentInstance}
use elvis.Agent.Tools.{ToolResult, execute_with_context, execute_message, set_context}
use elvis.Agent.Turn.{LlmResponse, ProcessOptions, Work, Answers, assistant_message, record_message}
use elvis.Agent.Iteration.{use_tools, run_tools, run_tool}
use elvis.Agent.Iteration.Answered.{Answering, Adds, use_tools-Answering}
use elvis.Agent.Iteration.Isolation.{Kept}
use elvis.Agent.Loop.{AgentLoop, Surroundings, run_agent_loop}
use elvis.Agent.Loop.Sessions.{run_agent_loop-other_session}

abbrev agent : AgentInstance Text
agent = record {
  id = codes "main";
  name = [];
  model = codes "m";
  fallbacks = [];
  workspace = [];
  max_iterations = 3;
  max_tokens = 100;
  context_window = 100;
  sessions = record { sessions = []; storage = [] };
  message_tool = record { default_channel = []; default_chat_id = []; sent_in_round = false };
  subagents = none;
  skills_filter = [];
  candidates = [];
}

abbrev loop : AgentLoop Text
loop = record {
  registry = (codes "main", agent) ∷ [];
  tracker = new_cooldown_tracker;
  outbound = [];
  saved = [];
  last_channels = [];
  summarizing = [];
}

abbrev asks_tool : LlmResponse Text
asks_tool = record {
  content = [];
  reasoning_content = [];
  tool_calls = call (codes "1") (codes "message") ∷ [];
}

abbrev says_done : LlmResponse Text
says_done = record { content = codes "done"; reasoning_content = []; tool_calls = [] }

abbrev nothing_found : ToolResult
nothing_found = record {
  for_llm = codes "?";
  for_user = [];
  silent = false;
  is_error = true;
  err = none;
}

abbrev turn : Turn (LlmResponse Text)
turn = record {
  canceled_before = false;
  canceled_after = false;
  available_at = 0;
  remaining_at = 0;
  failed_at = 0;
  elapsed = 0;
  reply = response says_done;
}

-- The first iteration asks for the tool "message", the second one ends.
abbrev reply_of : ℕ → Reply (LlmResponse Text)
reply_of zero = response asks_tool
reply_of (suc n) = response says_done

abbrev answers : ℕ → Answers Text
answers n = record {
  reply = λ retry. reply_of n;
  turn = λ retry c. turn;
  tool_result = λ position. nothing_found;
  now = 7;
  static_prompt = codes "You are";
  clock = codes "now";
}

abbrev surroundings : Surroundings Text
surroundings = record {
  answers = answers;
  now = 7;
  static_prompt = codes "You are";
  clock = codes "now";
  channels = none;
  rule = λ text. none;
}

abbrev config : Config
config = record { agents = []; bindings = []; dm_scope = unset; identity_links = [] }

abbrev show_channel : InboundMessage
show_channel = record zero_inbound {
  channel = codes "irc";
  chat_id = codes "c";
  content = codes "/show channel";
}

abbrev error_text : FallbackError → Text
error_text e = codes "failed"

abbrev to_user : Text → OutboundMessage
to_user text = record { channel = codes "irc"; chat_id = codes "c"; content = text }

abbrev opts : ProcessOptions
opts = record {
  session_key = codes "k";
  channel = codes "irc";
  chat_id = codes "c";
  user_message = codes "hello";
  default_response = codes "?";
  enable_summary = false;
  send_response = false;
  no_history = false;
}

abbrev working : Work Text
working = record {
  agent = agent;
  tracker = new_cooldown_tracker;
  outbound = [];
  saved = [];
  messages = [];
}

abbrev after_tool : Work Text
after_tool = use_tools (answers 0) opts asks_tool working

tool_sent : after_tool.outbound ≡ to_user (codes "hi") ∷ []
unfolding use_tools run_tools run_tool record_message execute_with_context text_eq
    normalize_tool_call execute_message set_context
tool_sent = refl

flag_set : after_tool.agent.message_tool.sent_in_round ≡ true
unfolding use_tools run_tools run_tool record_message execute_with_context text_eq
    normalize_tool_call execute_message set_context
flag_set = refl

use_tools-Answering_example :
    (ms : List (Message Text)) × Answering (map normalize_tool_call asks_tool.tool_calls) ms
    × Adds
        (codes "k")
        (assistant_message quoted.marshal asks_tool (map normalize_tool_call asks_tool.tool_calls)
          ∷ ms)
        working
        after_tool
use_tools-Answering_example = use_tools-Answering (answers 0) opts asks_tool working

other_key : text_eq (codes "k") (codes "other") ≡ false
unfolding text_eq
other_key = refl

run_agent_loop-other_session_example :
    (after : AgentInstance Text) × (lookup
        (codes "main")
        (run_agent_loop error_text surroundings opts (codes "main") agent loop).0.registry
      ≡ some after)
    × Kept (codes "other") agent.sessions after.sessions
run_agent_loop-other_session_example =
    run_agent_loop-other_session error_text surroundings opts (codes "main") agent loop
      (codes "other") other_key

-- The tool "message" has sent something while the message before was answered.
abbrev sent_loop : AgentLoop Text
sent_loop = record loop {
  registry =
      (
        codes "main",
        record agent { message_tool = record (agent.message_tool) { sent_in_round = true } },
      )
      ∷ [];
}
