-- ===== src/Session/Entries.antt =====
-- Which sessions the files of a directory hold, before and after `Save` (pkg/session/manager.go).
use elvis.Base.{
  ◌≡◌, refl, sym, ap, ◌∙◌, ◌⊎◌, inl, inr, true, false, [], ◌∷◌, ◌++◌, Text, All, text_eq,
  text_eq_iff, text_eq_refl, Bool-cases, arith,
}
use elvis.Session.{Session}
use elvis.Session.Disk.{
  Entry, directory, unreadable, no_session, stored, Directory, SaveIo, sanitize_filename,
  json_extension, temp_name, is_json_name, last_dot, text_lt, remove, place, write, json_session,
}
use elvis.Strings.Utf8.{json_text}
use elvis.Session.Saving.{last_dot-append, saved}

pub json_name : (s : Text) → is_json_name (s ++ json_extension) ≡ true
unfolding is_json_name last_dot text_eq
json_name s = rw (last_dot-append s json_extension refl, is_json_name)

module _ {A : Type 0} where
  -- A file that holds a session has the name that `Save` gives to it.
  abbrev pub WellNamed : Text × Entry A → Type 0
  WellNamed (name, stored s) = name ≡ sanitize_filename s.key ++ json_extension
  WellNamed _ = Unit

  -- Whatever session with the key an entry holds, it has the property.
  abbrev pub OnlyIf : Text → (Session A → Type 0) → Text × Entry A → Type 0
  OnlyIf key P (name, stored s) = s.key ≡ key → P s
  OnlyIf key P _ = Unit

  pub place-OnlyIf :
      (key : Text) (P : Session A → Type 0) (name : Text) (e : Entry A) (d : Directory A)
      → OnlyIf key P (name, e)
      → All (OnlyIf key P) d
      → All (OnlyIf key P) (place name e d)
  unfolding place
  place-OnlyIf key P name e [] h k = (h, tt)
  place-OnlyIf key P name e ((j, f) ∷ d) h (k, ks) = elim (Bool-cases (text_lt j name)) [
    | inl before ↦ rw (before, place) (k, place-OnlyIf key P name e d h ks)
    | inr behind ↦ rw (behind, place) (h, (k, ks))
  ]

  -- In a directory of well-named files, only the session's own file can hold a session with its key.
  pub remove-OnlyIf :
      (key : Text) (P : Session A → Type 0) (d : Directory A)
      → All WellNamed d
      → All (OnlyIf key P) (remove (sanitize_filename key ++ json_extension) d)
  unfolding remove
  remove-OnlyIf key P [] h = tt
  remove-OnlyIf key P ((j, e) ∷ d) (h, hs) =
      let target = sanitize_filename key ++ json_extension in
      elim (Bool-cases (text_eq j target)) [
        | inl same ↦ rw (same, remove) (remove-OnlyIf key P d hs)
        | inr other ↦ rw (other, remove) (only j e h other, remove-OnlyIf key P d hs)
      ]
    where
      only :
          (j : Text) (e : Entry A)
          → WellNamed (j, e)
          → text_eq j (sanitize_filename key ++ json_extension) ≡ false
          → OnlyIf key P (j, e)
      only j directory h other = tt
      only j unreadable h other = tt
      only j no_session h other = tt
      only j (stored s) h other = λ same. absurd (
          ground (
            arith,
            (text_eq_iff j (sanitize_filename key ++ json_extension)).1
                (h ∙ ap (λ k. sanitize_filename k ++ json_extension) same),
          ))

  pub remove-place :
      (k : Text) (e : Entry A) (d : Directory A) → remove k (place k e d) ≡ remove k d
  unfolding remove place
  remove-place k e [] = rw (text_eq_refl k, remove)
  remove-place k e ((j, f) ∷ d) = elim (Bool-cases (text_lt j k)) [
    | inl before ↦ rw (before, place) (rw (remove-place k e d, remove))
    | inr behind ↦ rw (behind, place) (rw (text_eq_refl k, remove))
  ]

  pub remove-WellNamed : (k : Text) (d : Directory A) → All WellNamed d → All WellNamed (remove k d)
  unfolding remove
  remove-WellNamed k [] h = tt
  remove-WellNamed k ((j, e) ∷ d) (h, hs) = elim (Bool-cases (text_eq j k)) [
    | inl same ↦ rw (same, remove) (remove-WellNamed k d hs)
    | inr other ↦ rw (other, remove) (h, remove-WellNamed k d hs)
  ]

  pub saved-OnlyIf :
      (io : SaveIo) (key : Text) (P : Session A → Type 0) (s : Session A) (d : Directory A)
      → All WellNamed d
      → json_text s.key ≡ s.key
      → (s.key ≡ key → P (json_session s))
      → All (OnlyIf key P) (saved io (sanitize_filename key) s d)
  unfolding write json_session
  saved-OnlyIf io key P s d h valid p =
      let temp = temp_name io.random in
      let target = sanitize_filename key ++ json_extension in
      place-OnlyIf key P target (stored (json_session s))
        (remove target (remove temp (write temp (stored (json_session s)) d)))
        (λ e. p (sym valid ∙ e))
        (remove-OnlyIf key P (remove temp (write temp (stored (json_session s)) d)) (
          rw (remove-place temp (stored (json_session s)) (remove temp d), write)
            (remove-WellNamed temp (remove temp d) (remove-WellNamed temp d h))))

  -- The directory holds the session in a file that is loaded.
  abbrev pub Holds : Session A → Directory A → Type 0
  Holds s [] = ⊥
  Holds s ((j, e) ∷ d) = ((e ≡ stored s) × (is_json_name j ≡ true)) ⊎ Holds s d

  pub place-Holds :
      (name : Text) (s : Session A) (d : Directory A)
      → is_json_name name ≡ true
      → Holds s (place name (stored s) d)
  unfolding place
  place-Holds name s [] h = inl (refl, h)
  place-Holds name s ((j, f) ∷ d) h = elim (Bool-cases (text_lt j name)) [
    | inl before ↦ rw (before, place) (inr (place-Holds name s d h))
    | inr behind ↦ rw (behind, place) (inl (refl, h))
  ]
