-- ===== src/State.antt =====
-- pkg/state/state.go: the state of a workspace and its file. `T` stands for the times. The JSON in a file
-- stands for the state that it decodes to; texts are taken to be valid UTF-8. Each method holds the mutex.
pub mod Restart
mod Examples
use elvis.Base.{Bool, true, false, ◌&&◌, List, [], ◌∷◌, Option, none, some, Text, if◌then◌else◌}

pub record State (T : Type 0) : Type 0 where
  pub last_channel : Text
  pub last_chat_id : Text
  pub timestamp : T

-- A file: its state, or no JSON of a state, or one that cannot be read.
pub data StateFile (T : Type 0) : Type 0 where
  valid : State T → StateFile T
  invalid unreadable : StateFile T

-- The files of a workspace, `none` for one that is not there.
pub record Files (T : Type 0) : Type 0 where
  pub state_file : Option (StateFile T)
  pub temp_file : Option (StateFile T)
  pub old_state_file : Option (StateFile T)

-- A manager with the files it works on.
pub record Manager (T : Type 0) : Type 0 where
  pub state : State T
  pub files : Files T

pub data SaveError : Type 0 where
  marshal_failed write_failed rename_failed : SaveError

-- Which steps of a save succeed, and what a write that fails leaves of the temporary file.
pub record SaveIo (T : Type 0) : Type 0 where
  pub marshals : Bool
  pub writes : Bool
  pub renames : Bool
  pub removes : Bool
  pub torn : Option (StateFile T)

module _ {T : Type 0} where
  abbrev pub replace_file : SaveIo T → StateFile T → Files T → Files T × Option SaveError
  replace_file io content files =
      if io.renames then (record files { state_file = some content; temp_file = none }, none) else (
        record files { temp_file = if io.removes then none else some content },
        some rename_failed,
      )

  unfoldable pub save_atomic : SaveIo T → State T → Files T → Files T × Option SaveError
  save_atomic io state files =
      if io.marshals
      then if io.writes
        then replace_file io (valid state) files
        else (record files { temp_file = io.torn }, some write_failed)
      else (files, some marshal_failed)

  abbrev pub save_state : SaveIo T → State T → Files T → Manager T × Option SaveError
  save_state io state files =
      let saved = save_atomic io state files in (record { state = state; files = saved.0 }, saved.1)

  unfoldable pub set_last_channel : SaveIo T → T → Text → Manager T → Manager T × Option SaveError
  set_last_channel io now channel m =
      save_state io (record m.state { last_channel = channel; timestamp = now }) m.files

  unfoldable pub set_last_chat_id : SaveIo T → T → Text → Manager T → Manager T × Option SaveError
  set_last_chat_id io now chat_id m =
      save_state io (record m.state { last_chat_id = chat_id; timestamp = now }) m.files

  abbrev pub get_last_channel : Manager T → Text
  get_last_channel m = m.state.last_channel

  abbrev pub get_last_chat_id : Manager T → Text
  get_last_chat_id m = m.state.last_chat_id

  abbrev pub get_timestamp : Manager T → T
  get_timestamp m = m.state.timestamp

  -- The state that is loaded over the given one; the only caller ignores the error.
  unfoldable pub load : Option (StateFile T) → State T → State T
  load (some (valid s)) state = s
  load (some invalid) state = state
  load (some unreadable) state = state
  load none state = state

  abbrev pub migrate : SaveIo T → State T → Files T → Manager T
  migrate io zero_state files = elim files.old_state_file [
    | none ↦ record { state = zero_state; files = files }
    | some old ↦ elim old [
      | valid s ↦ (save_state io s files).0
      | invalid ↦ record { state = zero_state; files = files }
      | unreadable ↦ record { state = zero_state; files = files }
    ]
  ]

  -- `zero_state` is Go's zero value of a state.
  unfoldable pub new_manager : SaveIo T → State T → Files T → Manager T
  new_manager io zero_state files = elim files.state_file [
    | none ↦ migrate io zero_state files
    | some f ↦ record { state = load (some f) zero_state; files = files }
  ]
