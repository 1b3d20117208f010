-- ===== src/Session/Keyed.antt =====
-- The map of pkg/session/manager.go keeps each session under the session's own key.
use elvis.Base.{
  ◌≡◌, refl, sym, ◌∙◌, inl, inr, List, [], ◌∷◌, Option, none, some, Text, Dict, lookup, insert,
  lookup-insert, text_eq, text_eq_iff, leb, ◌==◌, length, Option-cases, Bool-cases, arith,
}
use elvis.Session.{
  Session, SessionManager, get_or_create, add_full_message, set_summary, truncate_history,
  set_history,
}
use elvis.Session.Disk.{
  Entry, Directory, directory, unreadable, no_session, stored, is_json_name, load_entry,
  load_sessions, new_session_manager,
}
use elvis.Session.Views.{Call, create, add, summarise, truncate, replace, run_call, run}

module _ {A : Type 0} where
  abbrev pub IsKeyed : Dict (Session A) → Type 0
  IsKeyed m = (k : Text) (s : Session A) → lookup k m ≡ some s → s.key ≡ k

  insert-IsKeyed :
      (k : Text) (s : Session A) (m : Dict (Session A))
      → s.key ≡ k
      → IsKeyed m
      → IsKeyed (insert k s m)
  insert-IsKeyed k s m h keyed j t e = elim (Bool-cases (text_eq k j)) [
    | inl same ↦
        let found : some s ≡ some t = sym (lookup-insert k j s m ∙ rw same) ∙ e in
        let is : k ≡ j = (text_eq_iff k j).0 same in ground arith
    | inr other ↦ keyed j t (sym (lookup-insert k j s m ∙ rw other) ∙ e)
  ]

  run_call-IsKeyed :
      (c : Call A) (sm : SessionManager A) → IsKeyed sm.sessions → IsKeyed (run_call c sm).sessions
  unfolding run_call get_or_create add_full_message set_summary truncate_history set_history
  run_call-IsKeyed (create created updated k) sm h = elim (Option-cases (lookup k sm.sessions)) [
    | inl e ↦ rw (e, run_call, get_or_create) (insert-IsKeyed k _ sm.sessions refl h)
    | inr (s, e) ↦ rw (e, run_call, get_or_create) h
  ]
  run_call-IsKeyed (add created now k msg) sm h = elim (Option-cases (lookup k sm.sessions)) [
    | inl e ↦ rw (e, run_call, add_full_message) (insert-IsKeyed k _ sm.sessions refl h)
    | inr (s, e) ↦ rw (e, run_call, add_full_message) (insert-IsKeyed k _ sm.sessions (h k s e) h)
  ]
  run_call-IsKeyed (summarise now k summary) sm h = elim (Option-cases (lookup k sm.sessions)) [
    | inl e ↦ rw (e, run_call, set_summary) h
    | inr (s, e) ↦ rw (e, run_call, set_summary) (insert-IsKeyed k _ sm.sessions (h k s e) h)
  ]
  run_call-IsKeyed (truncate now k n) sm h = elim (Option-cases (lookup k sm.sessions)) [
    | inl e ↦ rw (e, run_call, truncate_history) h
    | inr (s, e) ↦ elim (Bool-cases (n == 0)) [
      | inl zero_kept ↦
          rw (e, zero_kept, run_call, truncate_history) (insert-IsKeyed k _ sm.sessions (h k s e) h)
      | inr some_kept ↦ elim (Bool-cases (leb (length s.messages) n)) [
        | inl short ↦ rw (e, some_kept, short, run_call, truncate_history) h
        | inr long ↦
            rw (e, some_kept, long, run_call, truncate_history)
              (insert-IsKeyed k _ sm.sessions (h k s e) h)
      ]
    ]
  ]
  run_call-IsKeyed (replace now k history) sm h = elim (Option-cases (lookup k sm.sessions)) [
    | inl e ↦ rw (e, run_call, set_history) h
    | inr (s, e) ↦ rw (e, run_call, set_history) (insert-IsKeyed k _ sm.sessions (h k s e) h)
  ]

  run-IsKeyed :
      (cs : List (Call A)) (sm : SessionManager A)
      → IsKeyed sm.sessions
      → IsKeyed (run cs sm).sessions
  unfolding run
  run-IsKeyed [] sm h = h
  run-IsKeyed (c ∷ cs) sm h = run-IsKeyed cs (run_call c sm) (run_call-IsKeyed c sm h)

  load_entry-IsKeyed :
      (name : Text) (e : Entry A) (m : Dict (Session A)) → IsKeyed m → IsKeyed (load_entry name e m)
  unfolding load_entry
  load_entry-IsKeyed name directory m h = h
  load_entry-IsKeyed name unreadable m h = h
  load_entry-IsKeyed name no_session m h = h
  load_entry-IsKeyed name (stored s) m h = elim (Bool-cases (is_json_name name)) [
    | inl e ↦ rw (e, load_entry) (insert-IsKeyed s.key s m refl h)
    | inr e ↦ rw (e, load_entry) h
  ]

  load_sessions-IsKeyed :
      (d : Directory A) (m : Dict (Session A)) → IsKeyed m → IsKeyed (load_sessions d m)
  unfolding load_sessions
  load_sessions-IsKeyed [] m h = h
  load_sessions-IsKeyed ((name, e) ∷ d) m h =
      load_sessions-IsKeyed d (load_entry name e m) (load_entry-IsKeyed name e m h)

  abbrev no_sessions : Dict (Session A)
  no_sessions = []

  empty-IsKeyed : IsKeyed no_sessions
  unfolding lookup
  empty-IsKeyed k s e = absurd (ground arith)

  new-IsKeyed :
      (storage : Text) (listing : Option (Directory A))
      → IsKeyed (new_session_manager storage listing).sessions
  unfolding new_session_manager
  new-IsKeyed [] listing = empty-IsKeyed
  new-IsKeyed (c ∷ s) none = empty-IsKeyed
  new-IsKeyed (c ∷ s) (some d) = load_sessions-IsKeyed d [] empty-IsKeyed

-- Whatever the files of a new manager hold and whatever calls follow, a session that is found under a
-- key has this key.
pub session-IsKeyed :
    {A : Type 0} (storage : Text) (listing : Option (Directory A)) (calls : List (Call A))
    → IsKeyed (run calls (new_session_manager storage listing)).sessions
session-IsKeyed storage listing calls = run-IsKeyed calls _ (new-IsKeyed storage listing)
