-- ===== src/Session.antt =====
-- pkg/session/manager.go: the histories of the conversations, in memory. A session is a value here: no
-- pointer that `GetOrCreate` returns is written through. Each method holds the manager's mutex, so one
-- call is one step; the values that it reads from the clock are arguments.
pub mod Disk
pub mod Views
pub mod Keyed
pub mod Saving
pub mod Entries
pub mod Loading
mod Examples
use elvis.Base.{
  ℕ, ◌-◌, Bool, List, [], ◌∷◌, ◌++◌, Option, none, some, Text, Dict, lookup, insert, length, drop,
  leb, ◌==◌, if◌then◌else◌,
}

-- pkg/providers/protocoltypes/types.go. `A` stands for the values of `map[string]any`.
pub record FunctionCall : Type 0 where
  pub name : Text
  pub arguments : Text
  pub thought_signature : Text

pub record GoogleExtra : Type 0 where
  pub thought_signature : Text

pub record ExtraContent : Type 0 where
  pub google : Option GoogleExtra

pub record ToolCall (A : Type 0) : Type 0 where
  pub id : Text
  pub kind : Text
  pub function : Option FunctionCall
  pub name : Text
  pub arguments : Option A
  pub thought_signature : Text
  pub extra_content : Option ExtraContent

pub record CacheControl : Type 0 where
  pub kind : Text

pub record ContentBlock : Type 0 where
  pub kind : Text
  pub text : Text
  pub cache_control : Option CacheControl

pub record Message (A : Type 0) : Type 0 where
  pub role : Text
  pub content : Text
  pub reasoning_content : Text
  pub system_parts : List ContentBlock
  pub tool_calls : List (ToolCall A)
  pub tool_call_id : Text

pub record Session (A : Type 0) : Type 0 where
  pub key : Text
  pub messages : List (Message A)
  pub summary : Text
  pub created : ℕ
  pub updated : ℕ

pub record SessionManager (A : Type 0) : Type 0 where
  pub sessions : Dict (Session A)
  pub storage : Text

module _ {A : Type 0} where
  abbrev pub new_session : Text → ℕ → ℕ → Session A
  new_session key created updated = record {
    key = key;
    messages = [];
    summary = [];
    created = created;
    updated = updated;
  }

  unfoldable pub get_or_create : ℕ → ℕ → Text → SessionManager A → SessionManager A × Session A
  get_or_create created updated key sm = elim (lookup key sm.sessions) [
    | some session ↦ (sm, session)
    | none ↦
        let session = new_session key created updated in
        (record sm { sessions = insert key session sm.sessions }, session)
  ]

  abbrev pub append_message : ℕ → Message A → Session A → Session A
  append_message now msg session = record session {
    messages = session.messages ++ msg ∷ [];
    updated = now;
  }

  unfoldable pub add_full_message : ℕ → ℕ → Text → Message A → SessionManager A → SessionManager A
  add_full_message created now key msg sm = elim (lookup key sm.sessions) [
    | some session ↦ record sm {
      sessions = insert key (append_message now msg session) sm.sessions;
    }
    | none ↦ record sm {
      sessions = insert key (append_message now msg (new_session key created 0)) sm.sessions;
    }
  ]

  abbrev pub plain_message : Text → Text → Message A
  plain_message role content = record {
    role = role;
    content = content;
    reasoning_content = [];
    system_parts = [];
    tool_calls = [];
    tool_call_id = [];
  }

  unfoldable pub add_message : ℕ → ℕ → Text → Text → Text → SessionManager A → SessionManager A
  add_message created now key role content sm =
      add_full_message created now key (plain_message role content) sm

  unfoldable pub get_history : Text → SessionManager A → List (Message A)
  get_history key sm = elim (lookup key sm.sessions) [ none ↦ [] | some session ↦ session.messages ]

  unfoldable pub get_summary : Text → SessionManager A → Text
  get_summary key sm = elim (lookup key sm.sessions) [ none ↦ [] | some session ↦ session.summary ]

  unfoldable pub set_summary : ℕ → Text → Text → SessionManager A → SessionManager A
  set_summary now key summary sm = elim (lookup key sm.sessions) [
    | none ↦ sm
    | some session ↦ record sm {
      sessions = insert key (record session { summary = summary; updated = now }) sm.sessions;
    }
  ]

  -- A negative number acts as 0.
  unfoldable pub truncate_history : ℕ → Text → ℕ → SessionManager A → SessionManager A
  truncate_history now key keep_last sm = elim (lookup key sm.sessions) [
    | none ↦ sm
    | some session ↦
        if keep_last == 0
        then record sm {
          sessions = insert key (record session { messages = []; updated = now }) sm.sessions;
        }
        else if leb (length session.messages) keep_last
        then sm
        else record sm {
          sessions =
              insert key
                (record session {
                  messages = drop (length session.messages - keep_last) session.messages;
                  updated = now;
                })
                sm.sessions;
        }
  ]

  unfoldable pub set_history : ℕ → Text → List (Message A) → SessionManager A → SessionManager A
  set_history now key history sm = elim (lookup key sm.sessions) [
    | none ↦ sm
    | some session ↦ record sm {
      sessions = insert key (record session { messages = history; updated = now }) sm.sessions;
    }
  ]
