-- ===== src/State/Restart.antt =====
-- pkg/state/state.go: what a restart finds after saves of which some failed.
use elvis.Base.{Bool, ◌&&◌, List, [], ◌∷◌, Text, if◌then◌else◌}
use elvis.State.{State, Manager, SaveIo, set_last_channel, set_last_chat_id}

-- A call of `SetLastChannel` or `SetLastChatID`, with its time and what becomes of its save.
pub data Call (T : Type 0) : Type 0 where
  channel chat_id : SaveIo T → T → Text → Call T

module _ {T : Type 0} where
  abbrev pub run_call : Call T → Manager T → Manager T
  run_call (channel io now c) m = (set_last_channel io now c m).0
  run_call (chat_id io now c) m = (set_last_chat_id io now c m).0

  unfoldable pub run_calls : List (Call T) → Manager T → Manager T
  run_calls [] m = m
  run_calls (c ∷ cs) m = run_calls cs (run_call c m)

  -- Whether the save of a call goes through.
  abbrev pub goes_through : Call T → Bool
  goes_through (channel io now c) = io.marshals && io.writes && io.renames
  goes_through (chat_id io now c) = io.marshals && io.writes && io.renames

  abbrev pub change : Call T → State T → State T
  change (channel io now c) s = record s { last_channel = c; timestamp = now }
  change (chat_id io now c) s = record s { last_chat_id = c; timestamp = now }

  -- The state at the last call whose save went through, `saved` if there is none; `current` is the state
  -- after all calls so far.
  unfoldable pub last_saved : List (Call T) → State T → State T → State T
  last_saved [] current saved = saved
  last_saved (c ∷ cs) current saved =
      last_saved cs (change c current) (if goes_through c then change c current else saved)
