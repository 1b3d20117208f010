-- ===== src/Session/Loading.antt =====
-- What a new manager of pkg/session/manager.go finds in a directory that `Save` has written.
use elvis.Base.{
  ◌≡◌, ◌≢◌, refl, sym, ap, subst, ◌∙◌, inl, inr, true, [], ◌∷◌, ◌++◌, none, some, Text, Dict,
  lookup, lookup-insert, lookup-insert_self, All, text_eq, text_eq_iff, text_eq-false,
  if◌then◌else◌, Bool-cases, arith,
}
use elvis.Strings.Utf8.{json_text}
use elvis.Session.{Session, SessionManager}
use elvis.Session.Disk.{
  Entry, directory, unreadable, no_session, stored, Directory, SaveIo, sanitize_filename,
  json_extension, temp_name, is_json_name, remove, write, json_session, save, load_entry,
  load_sessions, new_session_manager,
}
use elvis.Session.Saving.{saved, save-cases}
use elvis.Session.Entries.{json_name, WellNamed, OnlyIf, saved-OnlyIf, Holds, place-Holds}

module _ {A : Type 0} where
  -- Loading entries that hold no other session with the key.
  load_entry-kept :
      (name : Text) (e : Entry A) (s : Session A) (m : Dict (Session A))
      → OnlyIf s.key (λ t. t ≡ s) (name, e)
      → lookup s.key m ≡ some s
      → lookup s.key (load_entry name e m) ≡ some s
  unfolding load_entry
  load_entry-kept name directory s m only h = h
  load_entry-kept name unreadable s m only h = h
  load_entry-kept name no_session s m only h = h
  load_entry-kept name (stored t) s m only h = elim (Bool-cases (is_json_name name)) [
    | inr skipped ↦ rw (skipped, load_entry) h
    | inl loaded ↦ rw (loaded, load_entry) (lookup-insert t.key s.key t m ∙ found)
  ]
    where
      found : (if text_eq t.key s.key then some t else lookup s.key m) ≡ some s
      found = elim (Bool-cases (text_eq t.key s.key)) [
        | inl same ↦ rw same (ap some (only ((text_eq_iff t.key s.key).0 same)))
        | inr other ↦ rw other h
      ]

  load_entry-new :
      (name : Text) (e : Entry A) (s : Session A) (m : Dict (Session A))
      → e ≡ stored s
      → is_json_name name ≡ true
      → lookup s.key (load_entry name e m) ≡ some s
  unfolding load_entry
  load_entry-new name e s m is json = rw is (rw (json, load_entry) (lookup-insert_self s.key s m))

  load-kept :
      (d : Directory A) (s : Session A) (m : Dict (Session A))
      → All (OnlyIf s.key (λ t. t ≡ s)) d
      → lookup s.key m ≡ some s
      → lookup s.key (load_sessions d m) ≡ some s
  unfolding load_sessions
  load-kept [] s m h found = found
  load-kept ((j, e) ∷ d) s m (h, hs) found =
      load-kept d s (load_entry j e m) hs (load_entry-kept j e s m h found)

  load-found :
      (d : Directory A) (s : Session A) (m : Dict (Session A))
      → All (OnlyIf s.key (λ t. t ≡ s)) d
      → Holds s d
      → lookup s.key (load_sessions d m) ≡ some s
  unfolding load_sessions
  load-found [] s m h held = elim held [ ]
  load-found ((j, e) ∷ d) s m (h, hs) (inl (is, json)) =
      load-kept d s (load_entry j e m) hs (load_entry-new j e s m is json)
  load-found ((j, e) ∷ d) s m (h, hs) (inr later) = load-found d s (load_entry j e m) hs later

  -- Loading entries that hold no session with the key at all.
  load_entry-absent :
      (key name : Text) (e : Entry A) (m : Dict (Session A))
      → OnlyIf key (λ t. ⊥) (name, e)
      → lookup key (load_entry name e m) ≡ lookup key m
  unfolding load_entry
  load_entry-absent key name directory m h = refl
  load_entry-absent key name unreadable m h = refl
  load_entry-absent key name no_session m h = refl
  load_entry-absent key name (stored t) m h = elim (Bool-cases (is_json_name name)) [
    | inr skipped ↦ rw (skipped, load_entry)
    | inl loaded ↦
        rw (loaded, load_entry)
          (lookup-insert t.key key t m ∙ rw (text_eq-false {s = t.key} {t = key} (λ e. h e)))
  ]

  load-absent :
      (d : Directory A) (key : Text) (m : Dict (Session A))
      → All (OnlyIf key (λ t. ⊥)) d
      → lookup key (load_sessions d m) ≡ lookup key m
  unfolding load_sessions
  load-absent [] key m h = refl
  load-absent ((j, e) ∷ d) key m (h, hs) =
      load-absent d key (load_entry j e m) hs ∙ load_entry-absent key j e m h

  load_sessions-saved :
      (io : SaveIo) (s : Session A) (d : Directory A)
      → All WellNamed d
      → json_text s.key ≡ s.key
      → lookup s.key (load_sessions (saved io (sanitize_filename s.key) s d) [])
        ≡ some (json_session s)
  unfolding json_session write
  load_sessions-saved io s d h valid =
      let temp = temp_name io.random in
      let content = stored (json_session s) in
      ap (λ k. lookup k (load_sessions (saved io (sanitize_filename s.key) s d) [])) (sym valid)
      ∙ load-found (saved io (sanitize_filename s.key) s d) (json_session s) []
          (subst
            (λ k. All (OnlyIf k (λ t. t ≡ json_session s)) (saved io (sanitize_filename s.key) s d))
            (sym valid) (saved-OnlyIf io s.key (λ t. t ≡ json_session s) s d h valid (λ e. refl)))
          (place-Holds (sanitize_filename s.key ++ json_extension) (json_session s)
            (remove (sanitize_filename s.key ++ json_extension)
              (remove temp (write temp content d)))
            (json_name (sanitize_filename s.key)))

  new_manager-lookup :
      (key storage : Text) (d : Directory A)
      → storage ≢ []
      → lookup key (new_session_manager storage (some d)).sessions ≡ lookup key (load_sessions d [])
  unfolding new_session_manager
  new_manager-lookup key [] d ne = absurd (ne refl)
  new_manager-lookup key (c ∷ s) d ne = refl

  -- `Save` has written.
  save-saved :
      (io : SaveIo) (key : Text) (sm : SessionManager A) (d : Directory A) (s : Session A)
      → lookup key sm.sessions ≡ some s
      → sm.storage ≢ []
      → (save io key sm d).1 ≡ none
      → (save io key sm d).0 ≡ saved io (sanitize_filename key) s d
  save-saved io key sm d s found disk ok = elim (save-cases io key sm d) [
    | inl (kept, inl failed) ↦ absurd (failed ok)
    | inl (kept, inr (inl memory)) ↦ absurd (disk memory)
    | inl (kept, inr (inr missing)) ↦ absurd (ground arith)
    | inr (t, found_too, done) ↦
        let same : t ≡ s = ground arith in
        ap (λ r. r.0) done ∙ ap (λ x. saved io (sanitize_filename key) x d) same
  ]

-- A session that `Save` has saved is found by a new manager on the same directory, with its messages,
-- its summary and its times, less the fields that JSON leaves out and with U+FFFD for each byte that is
-- not UTF-8, if its key is valid UTF-8 and every file of a session there had the name that `Save` gives
-- to it.
pub save-load :
    {A : Type 0} (io : SaveIo) (sm : SessionManager A) (d : Directory A) (s : Session A)
    → lookup s.key sm.sessions ≡ some s
    → sm.storage ≢ []
    → All WellNamed d
    → json_text s.key ≡ s.key
    → (save io s.key sm d).1 ≡ none
    → lookup s.key (new_session_manager sm.storage (some (save io s.key sm d).0)).sessions
      ≡ some (json_session s)
save-load io sm d s found disk named valid ok =
    new_manager-lookup s.key sm.storage (save io s.key sm d).0 disk
    ∙ ap (λ x. lookup s.key (load_sessions x [])) (save-saved io s.key sm d s found disk ok)
    ∙ load_sessions-saved io s d named valid

-- In a directory where every file of a session has the name that `Save` gives to it, saving a session with
-- a key in valid UTF-8 removes the file of every other session whose key gives the same file name, that
-- is, one that differs only by colons and underscores: a new manager does not find that session.
pub save_collision :
    {A : Type 0} (io : SaveIo) (sm : SessionManager A) (d : Directory A) (s : Session A)
    (other : Text)
    → lookup s.key sm.sessions ≡ some s
    → sm.storage ≢ []
    → All WellNamed d
    → json_text s.key ≡ s.key
    → (save io s.key sm d).1 ≡ none
    → other ≢ s.key
    → sanitize_filename other ≡ sanitize_filename s.key
    → lookup other (new_session_manager sm.storage (some (save io s.key sm d).0)).sessions ≡ none
unfolding lookup
save_collision io sm d s other found disk named valid ok ne same =
    new_manager-lookup other sm.storage (save io s.key sm d).0 disk
    ∙ ap (λ x. lookup other (load_sessions x []))
        (save-saved io s.key sm d s found disk ok ∙ ap (λ f. saved io f s d) (sym same))
    ∙ load-absent (saved io (sanitize_filename other) s d) other []
        (saved-OnlyIf io other (λ t. ⊥) s d named valid (λ e. ne (sym e)))
