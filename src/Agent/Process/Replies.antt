-- ===== src/Agent/Process/Replies.antt =====
-- pkg/agent/loop.go (Run): which responses are published.
use elvis.Base.{lookup, ◌≡◌, some, Text, codes}
use elvis.Bus.{InboundMessage, OutboundMessage}
use elvis.Agent.Instance.{AgentInstance}
use elvis.Agent.Registry.{Registry}
use elvis.Agent.Process.{already_sent}

-- A response on the channel of its message.
abbrev pub response_to : InboundMessage → Text → OutboundMessage
response_to msg text = record { channel = msg.channel; chat_id = msg.chat_id; content = text }

-- Commands do not change whether the tool of the agent main has sent.
module _ {A : Type 0} (registry : Registry A) (agent : AgentInstance A)
    (main : lookup (codes "main") registry ≡ some agent) where
  abbrev Sent : Registry A → Type 0
  Sent r = already_sent r ≡ agent.message_tool.sent_in_round
