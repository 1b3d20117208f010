-- ===== src/Session/Examples.antt =====
-- Sessions at work (pkg/session/manager.go), and the theorems about them at concrete managers.
use elvis.Base.{
  ℕ, ◌≡◌, ◌⊎◌, refl, true, List, [], ◌∷◌, ◌++◌, none, some, Text, codes, All, lookup, text_eq,
  arith,
}
use elvis.Strings.Utf8.{json_text, valid_from}
use elvis.Session.{Message, Session, SessionManager, get_history, get_summary, plain_message}
use elvis.Session.Disk.{
  no_session, stored, Directory, SaveIo, sanitize_filename, json_extension, json_session, save,
  new_session_manager, is_invalid_filename, write_session,
}
use elvis.Session.Views.{
  Call, create, add, summarise, truncate, run, view, view_history, view_summary, expected, view-run,
}
use elvis.Session.Keyed.{IsKeyed, session-IsKeyed}
use elvis.Session.Saving.{save_all_or_none}
use elvis.Session.Entries.{WellNamed}
use elvis.Session.Loading.{save-load, save_collision}

abbrev chat : Text
chat = codes "agent:sales:direct:main"

-- The main key of the agent "sales_direct": it has the same file.
abbrev twin : Text
twin = codes "agent:sales_direct:main"

abbrev hello : Message ℕ
hello = plain_message (codes "user") (codes "hello")

abbrev calls : List (Call ℕ)
calls =
    create 1 1 twin
    ∷ add 2 2 chat hello
    ∷ add 0 3 chat (plain_message (codes "assistant") (codes "hi"))
    ∷ summarise 4 twin (codes "nothing yet")
    ∷ truncate 5 chat 1
    ∷ []

abbrev chat_session : Session ℕ
chat_session = record { key = chat; messages = hello ∷ []; summary = []; created = 1; updated = 2 }

abbrev manager : SessionManager ℕ
manager = record { sessions = (chat, chat_session) ∷ []; storage = codes "sessions" }

abbrev twin_session : Session ℕ
twin_session = record { key = twin; messages = []; summary = codes "x"; created = 1; updated = 1 }

abbrev files : Directory ℕ
files =
    (codes "agent_sales_direct_main.json", stored twin_session)
    ∷ (codes "notes.txt", no_session)
    ∷ []

abbrev all_well : SaveIo
all_well = record {
  random = codes "123";
  marshaled = true;
  created = true;
  written = true;
  chmodded = true;
  synced = true;
  closed = true;
  renamed = true;
  removed = true;
}

found_chat : lookup chat manager.sessions ≡ some chat_session
unfolding lookup text_eq
found_chat = refl

same_file : sanitize_filename twin ≡ sanitize_filename chat
unfolding sanitize_filename
same_file = refl

named_files : All WellNamed files
unfolding sanitize_filename
named_files = (refl, (tt, tt))

saved_well : (save all_well chat manager files).1 ≡ none
unfolding save is_invalid_filename text_eq sanitize_filename lookup write_session
saved_well = refl

view-run_example :
    (get_history chat (run calls manager) ≡ view_history (expected calls chat (view chat manager)))
    × (get_summary chat (run calls manager)
        ≡ view_summary (expected calls chat (view chat manager)))
view-run_example = view-run calls chat manager

session-IsKeyed_example :
    IsKeyed (run calls (new_session_manager (codes "sessions") (some files))).sessions
session-IsKeyed_example = session-IsKeyed (codes "sessions") (some files) calls

save_all_or_none_example :
    (lookup (codes "notes.txt") (save all_well chat manager files).0
      ≡ lookup (codes "notes.txt") files)
    ⊎ (((save all_well chat manager files).1 ≡ none)
        × (codes "notes.txt" ≡ sanitize_filename chat ++ json_extension)
        × ((s : Session ℕ) × (lookup chat manager.sessions ≡ some s)
            × (lookup (codes "notes.txt") (save all_well chat manager files).0
                ≡ some (stored (json_session s)))))
save_all_or_none_example =
    save_all_or_none all_well chat manager files (codes "notes.txt") (λ e. absurd (ground arith))

valid_key : json_text chat ≡ chat
unfolding json_text valid_from
valid_key = refl

-- A text that was cut within a rune.
cut_rune : json_text (b'a' ∷ 0xC3 ∷ []) ≡ b'a' ∷ 0xEF ∷ 0xBF ∷ 0xBD ∷ []
unfolding json_text valid_from
cut_rune = refl

save-load_example :
    lookup chat
      (new_session_manager (codes "sessions") (some (save all_well chat manager files).0)).sessions
    ≡ some (json_session chat_session)
save-load_example =
    save-load all_well manager files chat_session found_chat (λ e. absurd (ground arith))
      named_files valid_key saved_well

save_collision_example :
    lookup twin
      (new_session_manager (codes "sessions") (some (save all_well chat manager files).0)).sessions
    ≡ none
save_collision_example =
    save_collision all_well manager files chat_session twin found_chat (λ e. absurd (ground arith))
      named_files valid_key saved_well (λ e. absurd (ground arith)) same_file
