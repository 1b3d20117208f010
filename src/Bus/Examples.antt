-- ===== src/Bus/Examples.antt =====
-- The bus of pkg/bus/bus.go at concrete messages.
use elvis.Base.{ℕ, ◌≤◌, ◌≡◌, ◌≢◌, refl, true, false, [], ◌∷◌, none, some, length}
use elvis.Bus.{
  MessageBus, dropped, zero_inbound, new_message_bus, publish_inbound, consume_inbound, close_bus,
  sent, send, receive, panicked,
}
use elvis.Bus.Steps.{
  Direction, Reach, here, next, enters, delivers, takes, fresh, Kept, reachable-Kept,
  waiting-not_panicked,
}

abbrev bus : MessageBus ℕ
bus = new_message_bus

closed_bus_drops : publish_inbound zero_inbound (close_bus bus) ≡ dropped
unfolding publish_inbound close_bus new_message_bus
closed_bus_drops = refl

-- A consumer of the closed bus gets a message that nobody sent.
closed_bus_gives : consume_inbound false (close_bus bus) ≡ some (close_bus bus, zero_inbound, true)
unfolding consume_inbound receive close_bus new_message_bus
closed_bus_gives = refl

open_bus_blocks : consume_inbound false bus ≡ none
unfolding consume_inbound receive new_message_bus
open_bus_blocks = refl

-- Two publishers, of 7 and of 8; the second is first in the channel, its message is consumed; a third one
-- waits.
abbrev entered : Direction ℕ
entered = record {
  channel = record { buffer = []; closed = false };
  waiting = 8 ∷ 7 ∷ [];
  accepted = [];
  taken = [];
}

abbrev delivered : Direction ℕ
delivered = record {
  channel = record { buffer = 8 ∷ []; closed = false };
  waiting = 7 ∷ [];
  accepted = 8 ∷ [];
  taken = [];
}

abbrev consumed : Direction ℕ
consumed = record {
  channel = record { buffer = []; closed = false };
  waiting = 7 ∷ [];
  accepted = 8 ∷ [];
  taken = 8 ∷ [];
}

delivers_eight : send 8 (entered.channel) ≡ sent (delivered.channel)
unfolding send
delivers_eight = refl

takes_eight : receive 0 (delivered.channel) ≡ some (8, consumed.channel)
unfolding receive
takes_eight = refl

run : Reach 0 fresh consumed
run =
    next
      (next
        (next (next here (enters 7 fresh refl)) (enters 8 (record fresh { waiting = 7 ∷ [] }) refl))
        (delivers 8 [] (7 ∷ []) entered (delivered.channel) refl delivers_eight))
      (takes 8 delivered (consumed.channel) takes_eight)

reachable-Kept_example : Kept 0 consumed × (length consumed.channel.buffer ≤ 100)
reachable-Kept_example = reachable-Kept 0 consumed run

waiting-not_panicked_example : send 7 (consumed.channel) ≢ panicked
waiting-not_panicked_example = waiting-not_panicked 0 consumed run 7 [] [] refl
