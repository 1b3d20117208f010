-- ===== src/Bus.antt =====
-- pkg/bus/bus.go and types.go: the bounded queues between the channels and the agent loop. A Go channel
-- with room for 100 messages is a list; a call that would block gives `none` or `blocked`.
pub mod Steps
mod Examples
use elvis.Base.{
  ℕ, Bool, true, false, not, List, [], ◌∷◌, ◌++◌, Option, none, some, Text, Dict, lookup, insert,
  length, ltb, if◌then◌else◌,
}

pub record InboundMessage : Type 0 where
  pub channel : Text
  pub sender_id : Text
  pub chat_id : Text
  pub content : Text
  pub media : List Text
  pub session_key : Text
  pub metadata : Dict Text

pub record OutboundMessage : Type 0 where
  pub channel : Text
  pub chat_id : Text
  pub content : Text

abbrev pub zero_inbound : InboundMessage
zero_inbound = record {
  channel = [];
  sender_id = [];
  chat_id = [];
  content = [];
  media = [];
  session_key = [];
  metadata = [];
}

abbrev pub zero_outbound : OutboundMessage
zero_outbound = record { channel = []; chat_id = []; content = [] }

pub record Channel (A : Type 0) : Type 0 where
  pub buffer : List A
  pub closed : Bool

pub data Sent (A : Type 0) : Type 0 where
  sent : Channel A → Sent A
  blocked : Sent A
  panicked : Sent A

abbrev pub capacity : ℕ
capacity = 100

module _ {A : Type 0} where
  -- `ch <- x`
  unfoldable pub send : A → Channel A → Sent A
  send x ch =
      if ch.closed
      then panicked
      else if ltb (length ch.buffer) capacity
      then sent (record ch { buffer = ch.buffer ++ x ∷ [] })
      else blocked

  -- `<-ch`: a closed channel without messages gives the zero value.
  unfoldable pub receive : A → Channel A → Option (A × Channel A)
  receive blank ch = elim ch.buffer [
    | x ∷ rest ↦ some (x, record ch { buffer = rest })
    | [] ↦ if ch.closed then some (blank, ch) else none
  ]

  abbrev pub close : Channel A → Channel A
  close ch = record ch { closed = true }

-- `F` are the handlers.
pub record MessageBus (F : Type 0) : Type 0 where
  pub inbound : Channel InboundMessage
  pub outbound : Channel OutboundMessage
  pub handlers : Dict F
  pub closed : Bool

-- What a publisher does under the read lock: it returns, or it holds the lock until its message is in
-- the channel.
pub data Publishing (A : Type 0) : Type 0 where
  dropped : Publishing A
  sending : A → Publishing A

module _ {F : Type 0} where
  unfoldable pub new_message_bus : MessageBus F
  new_message_bus = record {
    inbound = record { buffer = []; closed = false };
    outbound = record { buffer = []; closed = false };
    handlers = [];
    closed = false;
  }

  unfoldable pub publish_inbound : InboundMessage → MessageBus F → Publishing InboundMessage
  publish_inbound msg mb = if mb.closed then dropped else sending msg

  unfoldable pub publish_outbound : OutboundMessage → MessageBus F → Publishing OutboundMessage
  publish_outbound msg mb = if mb.closed then dropped else sending msg

  -- `canceled` is the choice of `ctx.Done()` by the `select`.
  unfoldable pub consume_inbound :
      Bool → MessageBus F → Option (MessageBus F × InboundMessage × Bool)
  consume_inbound canceled mb =
      if canceled then some (mb, zero_inbound, false) else elim (receive zero_inbound mb.inbound) [
        | none ↦ none
        | some r ↦ some (record mb { inbound = r.1 }, r.0, true)
      ]

  unfoldable pub subscribe_outbound :
      Bool → MessageBus F → Option (MessageBus F × OutboundMessage × Bool)
  subscribe_outbound canceled mb =
      if canceled
      then some (mb, zero_outbound, false)
      else elim (receive zero_outbound mb.outbound) [
        | none ↦ none
        | some r ↦ some (record mb { outbound = r.1 }, r.0, true)
      ]

  unfoldable pub register_handler : Text → F → MessageBus F → MessageBus F
  register_handler channel handler mb = record mb { handlers = insert channel handler mb.handlers }

  unfoldable pub get_handler : Text → MessageBus F → Option F
  get_handler channel mb = lookup channel mb.handlers

  unfoldable pub close_bus : MessageBus F → MessageBus F
  close_bus mb =
      if mb.closed
      then mb
      else record mb { closed = true; inbound = close mb.inbound; outbound = close mb.outbound }
