-- ===== src/Session/Disk.antt =====
-- pkg/session/manager.go: the files of the sessions. What the operating system answers is an argument
-- of `save`. A file's JSON stands for the session that it decodes to, in which the bytes that are no
-- UTF-8 are replaced. The path rules are those of Unix.
use elvis.Base.{
  Bool, true, false, ◌||◌, ◌&&◌, not, List, [], ◌∷◌, ◌++◌, map, Option, none, some, Text, codes,
  Dict, lookup, insert, text_eq, any, is_nil, ltb, ◌==◌, if◌then◌else◌,
}
use elvis.Strings.{replace_byte}
use elvis.Strings.Utf8.{json_text}
use elvis.Session.{
  FunctionCall, ExtraContent, ToolCall, CacheControl, ContentBlock, Message, Session,
  SessionManager,
}

-- What a name in the directory is: `no_session` is a file whose bytes are no session's JSON.
pub data Entry (A : Type 0) : Type 0 where
  directory : Entry A
  unreadable : Entry A
  no_session : Entry A
  stored : Session A → Entry A

-- The directory in the order of `os.ReadDir`: by name.
abbrev pub Directory : Type 0 → Type 0
Directory A = List (Text × Entry A)

pub data SaveError : Type 0 where
  err_invalid io_error : SaveError

-- Which steps of `Save` succeed, and the random part of the temporary file's name.
pub record SaveIo : Type 0 where
  pub random : Text
  pub marshaled : Bool
  pub created : Bool
  pub written : Bool
  pub chmodded : Bool
  pub synced : Bool
  pub closed : Bool
  pub renamed : Bool
  pub removed : Bool

unfoldable pub sanitize_filename : Text → Text
unfolding replace_byte
sanitize_filename key = replace_byte b':' b'_' key

-- For a name with a slash `filepath.IsLocal` does not matter: `ContainsAny` refuses it.
unfoldable pub is_invalid_filename : Text → Bool
is_invalid_filename name =
    text_eq name (codes ".")
    || (is_nil name || text_eq name (codes ".."))
    || any (λ c. c == b'/' || c == 0x5C) name

abbrev pub json_extension : Text
json_extension = codes ".json"

-- The name of `os.CreateTemp(dir, "session-*.tmp")`
abbrev pub temp_name : Text → Text
temp_name random = codes "session-" ++ random ++ codes ".tmp"

-- `filepath.Ext` of a name without slashes: from the last dot on.
unfoldable pub last_dot : Text → Option Text
last_dot [] = none
last_dot (c ∷ s) = elim (last_dot s) [
  | some e ↦ some e
  | none ↦ if c == b'.' then some (c ∷ s) else none
]

unfoldable pub is_json_name : Text → Bool
is_json_name name = elim (last_dot name) [ none ↦ false | some e ↦ text_eq e json_extension ]

-- The order of Go strings.
unfoldable pub text_lt : Text → Text → Bool
text_lt s [] = false
text_lt [] (b ∷ t) = true
text_lt (a ∷ s) (b ∷ t) = ltb a b || a == b && text_lt s t

abbrev pub json_function : FunctionCall → FunctionCall
json_function f = record {
  name = json_text f.name;
  arguments = json_text f.arguments;
  thought_signature = json_text f.thought_signature;
}

abbrev pub json_extra : ExtraContent → ExtraContent
json_extra e = record {
  google = elim e.google [
    | none ↦ none
    | some g ↦ some (record g { thought_signature = json_text g.thought_signature })
  ];
}

abbrev pub json_cache : Option CacheControl → Option CacheControl
json_cache none = none
json_cache (some c) = some (record c { kind = json_text c.kind })

abbrev pub json_block : ContentBlock → ContentBlock
json_block b = record {
  kind = json_text b.kind;
  text = json_text b.text;
  cache_control = json_cache b.cache_control;
}

module _ {A : Type 0} where
  unfoldable pub remove : Text → Directory A → Directory A
  remove name [] = []
  remove name ((j, e) ∷ d) =
      let rest = remove name d in if text_eq j name then rest else (j, e) ∷ rest

  unfoldable pub place : Text → Entry A → Directory A → Directory A
  place name e [] = (name, e) ∷ []
  place name e ((j, f) ∷ d) =
      let rest = place name e d in if text_lt j name then (j, f) ∷ rest else (name, e) ∷ (j, f) ∷ d

  -- A name is created or replaced.
  unfoldable pub write : Text → Entry A → Directory A → Directory A
  write name e d = place name e (remove name d)

  -- What JSON keeps: the fields with the tag `json:"-"` are lost, and texts are made valid.
  abbrev pub json_tool_call : ToolCall A → ToolCall A
  json_tool_call c = record {
    id = json_text c.id;
    kind = json_text c.kind;
    function = elim c.function [ none ↦ none | some f ↦ some (json_function f) ];
    name = [];
    arguments = none;
    thought_signature = [];
    extra_content = elim c.extra_content [ none ↦ none | some e ↦ some (json_extra e) ];
  }

  abbrev pub json_message : Message A → Message A
  json_message m = record {
    role = json_text m.role;
    content = json_text m.content;
    reasoning_content = json_text m.reasoning_content;
    system_parts = map json_block m.system_parts;
    tool_calls = map json_tool_call m.tool_calls;
    tool_call_id = json_text m.tool_call_id;
  }

  unfoldable pub json_session : Session A → Session A
  json_session s = record s {
    key = json_text s.key;
    messages = map json_message s.messages;
    summary = json_text s.summary;
  }

  abbrev clean_up : SaveIo → Text → Directory A → Directory A
  clean_up io temp d = if io.removed then remove temp d else d

  -- From the JSON to the renamed file.
  unfoldable pub write_session :
      SaveIo → Text → Session A → Directory A → Directory A × Option SaveError
  write_session io filename session d =
      let temp = temp_name io.random in
      let content = stored (json_session session) in
      if not io.marshaled || not io.created
      then (d, some io_error)
      else if not io.written
      then (clean_up io temp (write temp no_session d), some io_error)
      else if not io.chmodded || not io.synced || not io.closed || not io.renamed
      then (clean_up io temp (write temp content d), some io_error)
      else (write (filename ++ json_extension) content (remove temp (write temp content d)), none)

  unfoldable pub save :
      SaveIo → Text → SessionManager A → Directory A → Directory A × Option SaveError
  save io key sm d =
      let filename = sanitize_filename key in
      if is_nil sm.storage
      then (d, none)
      else if is_invalid_filename filename
      then (d, some err_invalid)
      else elim (lookup key sm.sessions) [
        | none ↦ (d, none)
        | some session ↦ write_session io filename session d
      ]

  -- The loop's body for one entry.
  unfoldable pub load_entry : Text → Entry A → Dict (Session A) → Dict (Session A)
  load_entry name directory sessions = sessions
  load_entry name unreadable sessions = sessions
  load_entry name no_session sessions = sessions
  load_entry name (stored s) sessions =
      if is_json_name name then insert s.key s sessions else sessions

  unfoldable pub load_sessions : Directory A → Dict (Session A) → Dict (Session A)
  load_sessions [] sessions = sessions
  load_sessions ((name, e) ∷ d) sessions = load_sessions d (load_entry name e sessions)

  -- `none` is a directory that cannot be listed.
  unfoldable pub new_session_manager : Text → Option (Directory A) → SessionManager A
  new_session_manager [] listing = record { sessions = []; storage = [] }
  new_session_manager (c ∷ s) none = record { sessions = []; storage = c ∷ s }
  new_session_manager (c ∷ s) (some d) = record { sessions = load_sessions d []; storage = c ∷ s }
