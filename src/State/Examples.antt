-- ===== src/State/Examples.antt =====
-- The manager of pkg/state/state.go on concrete files.
use elvis.Base.{ℕ, ◌≡◌, refl, ◌∷◌, [], List, true, false, none, some, codes}
use elvis.State.{
  State, valid, invalid, Manager, SaveIo, write_failed, new_manager, set_last_channel, save_atomic,
  get_last_channel,
}
use elvis.State.Restart.{Call, channel, chat_id}

abbrev zero_state : State ℕ
zero_state = record { last_channel = []; last_chat_id = []; timestamp = 0 }

abbrev works : SaveIo ℕ
works = record { marshals = true; writes = true; renames = true; removes = true; torn = none }

-- The disk is full.
abbrev fails : SaveIo ℕ
fails = record {
  marshals = true;
  writes = false;
  renames = true;
  removes = true;
  torn = some invalid;
}

abbrev old_state : State ℕ
old_state = record { last_channel = codes "slack"; last_chat_id = codes "1"; timestamp = 3 }

-- A file of an old version is taken over.
migrated :
    (new_manager works zero_state (record {
      state_file = none;
      temp_file = none;
      old_state_file = some (valid old_state);
    })).files.state_file
    ≡ some (valid old_state)
unfolding new_manager save_atomic
migrated = refl

abbrev started : Manager ℕ
started = record {
  state = old_state;
  files = record { state_file = some (valid old_state); temp_file = none; old_state_file = none };
}

-- The error is reported, and the state in memory has changed.
failed : (set_last_channel fails 5 (codes "line") started).1 ≡ some write_failed
unfolding set_last_channel save_atomic
failed = refl

kept_in_memory : get_last_channel (set_last_channel fails 5 (codes "line") started).0 ≡ codes "line"
unfolding set_last_channel
kept_in_memory = refl

abbrev calls : List (Call ℕ)
calls = channel works 4 (codes "line") ∷ chat_id fails 5 (codes "2") ∷ []
