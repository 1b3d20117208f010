-- ===== src/Session/Saving.antt =====
-- What `Save` of pkg/session/manager.go does to the directory, whichever step fails.
use elvis.Base.{
  ◌≡◌, ◌≢◌, refl, sym, ap, ◌∙◌, ◌⊎◌, inl, inr, Bool, true, false, ◌||◌, not, [], ◌∷◌, ◌++◌, none,
  some, Text, lookup, text_eq, text_eq_iff, text_eq_refl, text_eq-false, is_nil, if◌then◌else◌,
  Option-cases, Bool-cases, arith,
}
use elvis.Session.{Session, SessionManager}
use elvis.Session.Disk.{
  Entry, no_session, stored, Directory, SaveIo, io_error, sanitize_filename, is_invalid_filename,
  json_extension, temp_name, last_dot, remove, place, write, json_session, write_session, save,
}

-- What follows the last dot of the end follows that of the whole.
pub last_dot-append : (s e : Text) → last_dot e ≡ some e → last_dot (s ++ e) ≡ some e
unfolding last_dot
last_dot-append [] e h = h
last_dot-append (c ∷ s) e h = rw (last_dot-append s e h, last_dot)

empty_of : (s : Text) → is_nil s ≡ true → s ≡ []
empty_of [] h = refl
empty_of (c ∷ s) h = absurd (ground arith)

module _ {A : Type 0} where
  pub lookup-remove :
      (k j : Text) (d : Directory A)
      → lookup j (remove k d) ≡ (if text_eq k j then none else lookup j d)
  unfolding lookup remove
  lookup-remove k j [] = ground arith
  lookup-remove k j ((i, e) ∷ d) =
      ground (arith, text_eq_iff k j, text_eq_iff i k, text_eq_iff i j, lookup-remove k j d)

  lookup-place :
      (k j : Text) (e : Entry A) (d : Directory A)
      → lookup k d ≡ none
      → lookup j (place k e d) ≡ (if text_eq k j then some e else lookup j d)
  unfolding lookup place
  lookup-place k j e [] h = refl
  lookup-place k j e ((i, f) ∷ d) h = elim (Bool-cases (text_eq i k)) [
    | inl same ↦ absurd (ground arith)
    | inr other ↦
        let rest = lookup-place k j e d (ground arith) in
        ground (arith, text_eq_iff k j, text_eq_iff i k, text_eq_iff i j)
  ]

  pub lookup-write :
      (k j : Text) (e : Entry A) (d : Directory A)
      → lookup j (write k e d) ≡ (if text_eq k j then some e else lookup j d)
  unfolding write
  lookup-write k j e d =
      lookup-place k j e (remove k d) (lookup-remove k k d ∙ ground (arith, text_eq_refl k))
      ∙ ground (arith, lookup-remove k j d)

  unfoldable KeepsFiles : Text → Directory A → Directory A → Type 0
  KeepsFiles temp d d' = (name : Text) → name ≢ temp → lookup name d' ≡ lookup name d

  remove-KeepsFiles :
      (temp : Text) (d d' : Directory A) → KeepsFiles temp d d' → KeepsFiles temp d (remove temp d')
  unfolding KeepsFiles
  remove-KeepsFiles temp d d' h name ne =
      lookup-remove temp name d'
      ∙ ground (arith, text_eq-false {s = temp} {t = name} (λ e. ne (sym e)), h name ne)

  write-KeepsFiles :
      (temp : Text) (e : Entry A) (d : Directory A) → KeepsFiles temp d (write temp e d)
  unfolding KeepsFiles
  write-KeepsFiles temp e d name ne =
      lookup-write temp name e d
      ∙ ground (arith, text_eq-false {s = temp} {t = name} (λ e. ne (sym e)))

  -- The directory when `Save` returns nil and has written.
  abbrev pub saved : SaveIo → Text → Session A → Directory A → Directory A
  saved io filename s d =
      let temp = temp_name io.random in
      let content = stored (json_session s) in
      write (filename ++ json_extension) content (remove temp (write temp content d))

  clean_up-KeepsFiles :
      (removed : Bool) (temp : Text) (e : Entry A) (d : Directory A)
      → KeepsFiles temp d (if removed then remove temp (write temp e d) else write temp e d)
  clean_up-KeepsFiles true temp e d =
      remove-KeepsFiles temp d (write temp e d) (write-KeepsFiles temp e d)
  clean_up-KeepsFiles false temp e d = write-KeepsFiles temp e d

  write_session-cases :
      (io : SaveIo) (filename : Text) (s : Session A) (d : Directory A)
      → (KeepsFiles (temp_name io.random) d (write_session io filename s d).0
          × ((write_session io filename s d).1 ≡ some io_error))
        ⊎ (write_session io filename s d ≡ (saved io filename s d, none))
  unfolding write_session KeepsFiles
  write_session-cases io filename s d = elim (Bool-cases (not io.marshaled || not io.created)) [
    | inl early ↦ rw (early, write_session) (inl ((λ name ne. refl), refl))
    | inr ready ↦ elim (Bool-cases (not io.written)) [
      | inl unwritten ↦
          rw (ready, unwritten, write_session)
            (inl (clean_up-KeepsFiles io.removed (temp_name io.random) no_session d, refl))
      | inr written ↦
          elim (Bool-cases (not io.chmodded || not io.synced || not io.closed || not io.renamed)) [
            | inl failed ↦
                rw (ready, written, failed, write_session)
                  (inl (
                    clean_up-KeepsFiles io.removed (temp_name io.random) (stored (json_session s))
                        d,
                    refl,
                  ))
            | inr done ↦ rw (ready, written, done, write_session) (inr refl)
          ]
    ]
  ]

  pub lookup-saved :
      (io : SaveIo) (filename : Text) (s : Session A) (d : Directory A) (name : Text)
      → name ≢ temp_name io.random
      → lookup name (saved io filename s d) ≡ (
          if text_eq (filename ++ json_extension) name
          then some (stored (json_session s))
          else lookup name d)
  unfolding KeepsFiles
  lookup-saved io filename s d name ne =
      let temp = temp_name io.random in
      let content = stored (json_session s) in
      lookup-write (filename ++ json_extension) name content (remove temp (write temp content d))
      ∙ ap (λ o. if text_eq (filename ++ json_extension) name then some content else o)
          (remove-KeepsFiles temp d (write temp content d) (write-KeepsFiles temp content d) name
            ne)

  -- All outcomes of `Save`: an error or nothing to do, with all files but the temporary one kept; or
  -- the session is on the disk.
  pub save-cases :
      (io : SaveIo) (key : Text) (sm : SessionManager A) (d : Directory A)
      → ((name : Text)
            → name ≢ temp_name io.random
            → lookup name (save io key sm d).0 ≡ lookup name d)
          × (((save io key sm d).1 ≢ none) ⊎ ((sm.storage ≡ []) ⊎ (lookup key sm.sessions ≡ none)))
        ⊎ ((s : Session A) × (lookup key sm.sessions ≡ some s)
            × (save io key sm d ≡ (saved io (sanitize_filename key) s d, none)))
  unfolding save KeepsFiles
  save-cases io key sm d = elim (Bool-cases (is_nil sm.storage)) [
    | inl memory ↦
        rw (memory, save) (inl ((λ name ne. refl), inr (inl (empty_of sm.storage memory))))
    | inr disk ↦ elim (Bool-cases (is_invalid_filename (sanitize_filename key))) [
      | inl invalid ↦
          rw (disk, invalid, save) (inl ((λ name ne. refl), inl (λ e. absurd (ground arith))))
      | inr valid ↦ elim (Option-cases (lookup key sm.sessions)) [
        | inl missing ↦ rw (disk, valid, missing, save) (inl ((λ name ne. refl), inr (inr refl)))
        | inr (s, found) ↦ elim (write_session-cases io (sanitize_filename key) s d) [
          | inl (kept, failed) ↦
              rw (disk, valid, found, save)
                (inl (kept, inl (λ e. absurd (ground (arith, e, failed)))))
          | inr done ↦ rw (disk, valid, found, save) (inr (s, refl, done))
        ]
      ]
    ]
  ]

-- A call of `Save`, whichever of its steps fail, leaves every file but the temporary one as it was,
-- except that, if it returns nil, the session's file may be the JSON of the session: the old file is
-- replaced whole or not at all.
pub save_all_or_none :
    {A : Type 0} (io : SaveIo) (key : Text) (sm : SessionManager A) (d : Directory A) (name : Text)
    → name ≢ temp_name io.random
    → (lookup name (save io key sm d).0 ≡ lookup name d)
      ⊎ (((save io key sm d).1 ≡ none)
          × (name ≡ sanitize_filename key ++ json_extension)
          × ((s : Session A) × (lookup key sm.sessions ≡ some s)
              × (lookup name (save io key sm d).0 ≡ some (stored (json_session s)))))
save_all_or_none io key sm d name ne = elim (save-cases io key sm d) [
  | inl (kept, ending) ↦ inl (kept name ne)
  | inr (s, found, done) ↦
      elim (Bool-cases (text_eq (sanitize_filename key ++ json_extension) name)) [
        | inl target ↦ inr (
          ap (λ r. r.1) done,
          sym ((text_eq_iff (sanitize_filename key ++ json_extension) name).0 target),
          (
            s,
            found,
            ap (λ r. lookup name r.0) done
                ∙ lookup-saved io (sanitize_filename key) s d name ne
                ∙ rw target,
          ),
        )
        | inr other ↦ inl (
            ap (λ r. lookup name r.0) done
            ∙ lookup-saved io (sanitize_filename key) s d name ne
            ∙ rw other)
      ]
]
