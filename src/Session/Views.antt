-- ===== src/Session/Views.antt =====
-- What a client sees of pkg/session/manager.go: for each key a history and a summary, without the
-- times and without the map.
use elvis.Base.{
  ℕ, ◌-◌, ◌≤◌, ◌≡◌, refl, sym, ◌∙◌, ap, inl, inr, true, List, [], ◌∷◌, ◌++◌, Option, none, some,
  Text, lookup, insert, lookup-insert, length, drop, text_eq, text_eq_iff, leb, ◌==◌, if◌then◌else◌,
  Option-cases, Bool-cases, arith,
}
use elvis.Session.{
  Message, Session, SessionManager, get_or_create, add_full_message, get_history, get_summary,
  set_summary, truncate_history, set_history, new_session,
}

-- The calls that change a manager, with the clock's values.
pub data Call (A : Type 0) : Type 0 where
  create : ℕ → ℕ → Text → Call A
  add : ℕ → ℕ → Text → Message A → Call A
  summarise : ℕ → Text → Text → Call A
  truncate : ℕ → Text → ℕ → Call A
  replace : ℕ → Text → List (Message A) → Call A

-- A history and a summary; `none` where there is no session.
abbrev pub View : Type 0 → Type 0
View A = Option (List (Message A) × Text)

module _ {A : Type 0} where
  unfoldable pub run_call : Call A → SessionManager A → SessionManager A
  run_call (create created updated key) sm = (get_or_create created updated key sm).0
  run_call (add created now key msg) sm = add_full_message created now key msg sm
  run_call (summarise now key summary) sm = set_summary now key summary sm
  run_call (truncate now key keep_last) sm = truncate_history now key keep_last sm
  run_call (replace now key history) sm = set_history now key history sm

  unfoldable pub run : List (Call A) → SessionManager A → SessionManager A
  run [] sm = sm
  run (c ∷ cs) sm = run cs (run_call c sm)

  abbrev session_view : Option (Session A) → View A
  session_view none = none
  session_view (some s) = some (s.messages, s.summary)

  unfoldable pub view : Text → SessionManager A → View A
  view key sm = session_view (lookup key sm.sessions)

  -- The last messages of a history.
  abbrev pub last_messages : ℕ → List (Message A) → List (Message A)
  last_messages n h = drop (length h - n) h

  abbrev pub key_of : Call A → Text
  key_of (create created updated key) = key
  key_of (add created now key msg) = key
  key_of (summarise now key summary) = key
  key_of (truncate now key keep_last) = key
  key_of (replace now key history) = key

  -- What a call does to the view of its own key.
  abbrev pub effect : Call A → View A → View A
  effect (create created updated key) none = some ([], [])
  effect (create created updated key) (some v) = some v
  effect (add created now key msg) none = some (msg ∷ [], [])
  effect (add created now key msg) (some (h, s)) = some (h ++ msg ∷ [], s)
  effect (summarise now key summary) none = none
  effect (summarise now key summary) (some (h, s)) = some (h, summary)
  effect (truncate now key keep_last) none = none
  effect (truncate now key keep_last) (some (h, s)) = some (last_messages keep_last h, s)
  effect (replace now key history) none = none
  effect (replace now key history) (some (h, s)) = some (history, s)

  unfoldable pub expected : List (Call A) → Text → View A → View A
  expected [] key v = v
  expected (c ∷ cs) key v = expected cs key (if text_eq (key_of c) key then effect c v else v)

  drop_all : (xs : List (Message A)) → drop (length xs) xs ≡ []
  drop_all [] = refl
  drop_all (x ∷ xs) = drop_all xs

  last_none : (h : List (Message A)) → last_messages 0 h ≡ []
  last_none h = subst_length (length h - 0) (omega arith)
    where
      subst_length : (n : ℕ) → n ≡ length h → drop n h ≡ []
      subst_length n e = rw e (drop_all h)

  last_all : (n : ℕ) (h : List (Message A)) → length h ≤ n → last_messages n h ≡ h
  last_all n h le = none_dropped (length h - n) (omega arith)
    where
      none_dropped : (k : ℕ) → k ≡ 0 → drop k h ≡ h
      none_dropped k e = rw e

  view-insert :
      (k j : Text) (s : Session A) (sm : SessionManager A)
      → view j (record sm { sessions = insert k s sm.sessions })
        ≡ (if text_eq k j then some (s.messages, s.summary) else view j sm)
  unfolding view
  view-insert k j s sm = ap session_view (lookup-insert k j s sm.sessions) ∙ ground (arith)

  same_view : (k j : Text) (sm : SessionManager A) → text_eq k j ≡ true → view j sm ≡ view k sm
  same_view k j sm e = ap (λ x. view x sm) (sym ((text_eq_iff k j).0 e))

  -- A call that keeps the manager, and one that puts a session under its key.
  view-kept :
      (k j : Text) (sm : SessionManager A) (f : View A → View A)
      → f (view k sm) ≡ view k sm
      → view j sm ≡ (if text_eq k j then f (view j sm) else view j sm)
  view-kept k j sm f h = elim (Bool-cases (text_eq k j)) [
    | inl e ↦ rw e (same_view k j sm e ∙ sym h ∙ ap f (sym (same_view k j sm e)))
    | inr e ↦ rw e
  ]

  view-put :
      (k j : Text) (s : Session A) (sm : SessionManager A) (f : View A → View A)
      → f (view k sm) ≡ some (s.messages, s.summary)
      → view j (record sm { sessions = insert k s sm.sessions })
        ≡ (if text_eq k j then f (view j sm) else view j sm)
  view-put k j s sm f h = elim (Bool-cases (text_eq k j)) [
    | inl e ↦ rw e (view-insert k j s sm ∙ rw e (sym h ∙ ap f (sym (same_view k j sm e))))
    | inr e ↦ rw e (view-insert k j s sm ∙ rw e)
  ]

  view-truncate :
      (now : ℕ) (k : Text) (n : ℕ) (j : Text) (sm : SessionManager A) {s : Session A}
      → lookup k sm.sessions ≡ some s
      → view j (truncate_history now k n sm)
        ≡ (if text_eq k j then effect (truncate now k n) (view j sm) else view j sm)
  unfolding truncate_history view
  view-truncate now k n j sm {s} e = elim (Bool-cases (n == 0)) [
    | inl zero_kept ↦
        let is_zero : n ≡ 0 = ground arith in
        rw (e, zero_kept, truncate_history)
          (view-put k j _ sm (effect (truncate now k n))
            (rw (e, is_zero, view) (ap (λ h. some (h, s.summary)) (last_none s.messages))))
    | inr some_kept ↦ elim (Bool-cases (leb (length s.messages) n)) [
      | inl short ↦
          rw (e, some_kept, short, truncate_history)
            (view-kept k j sm (effect (truncate now k n))
              (rw (e, view) (ap (λ h. some (h, s.summary)) (last_all n s.messages (ground arith)))))
      | inr long ↦
          rw (e, some_kept, long, truncate_history)
            (view-put k j _ sm (effect (truncate now k n)) (rw (e, view) refl))
    ]
  ]

  pub view-run_call :
      (c : Call A) (j : Text) (sm : SessionManager A)
      → view j (run_call c sm) ≡ (if text_eq (key_of c) j then effect c (view j sm) else view j sm)
  unfolding run_call get_or_create add_full_message set_summary truncate_history set_history view
  view-run_call (create created updated k) j sm = elim (Option-cases (lookup k sm.sessions)) [
    | inl e ↦
        rw (e, run_call, get_or_create)
          (view-put k j (new_session k created updated) sm (effect (create created updated k))
            (rw (e, view) refl))
    | inr (s, e) ↦
        rw (e, run_call, get_or_create)
          (view-kept k j sm (effect (create created updated k)) (rw (e, view) refl))
  ]
  view-run_call (add created now k msg) j sm = elim (Option-cases (lookup k sm.sessions)) [
    | inl e ↦
        rw (e, run_call, add_full_message)
          (view-put k j _ sm (effect (add created now k msg)) (rw (e, view) refl))
    | inr (s, e) ↦
        rw (e, run_call, add_full_message)
          (view-put k j _ sm (effect (add created now k msg)) (rw (e, view) refl))
  ]
  view-run_call (summarise now k summary) j sm = elim (Option-cases (lookup k sm.sessions)) [
    | inl e ↦
        rw (e, run_call, set_summary)
          (view-kept k j sm (effect (summarise now k summary)) (rw (e, view) refl))
    | inr (s, e) ↦
        rw (e, run_call, set_summary)
          (view-put k j _ sm (effect (summarise now k summary)) (rw (e, view) refl))
  ]
  view-run_call (truncate now k n) j sm = elim (Option-cases (lookup k sm.sessions)) [
    | inl e ↦
        rw (e, run_call, truncate_history)
          (view-kept k j sm (effect (truncate now k n)) (rw (e, view) refl))
    | inr (s, e) ↦ view-truncate now k n j sm {s = s} e
  ]
  view-run_call (replace now k history) j sm = elim (Option-cases (lookup k sm.sessions)) [
    | inl e ↦
        rw (e, run_call, set_history)
          (view-kept k j sm (effect (replace now k history)) (rw (e, view) refl))
    | inr (s, e) ↦
        rw (e, run_call, set_history)
          (view-put k j _ sm (effect (replace now k history)) (rw (e, view) refl))
  ]

  run-expected :
      (cs : List (Call A)) (key : Text) (sm : SessionManager A)
      → view key (run cs sm) ≡ expected cs key (view key sm)
  unfolding run expected
  run-expected [] key sm = refl
  run-expected (c ∷ cs) key sm =
      run-expected cs key (run_call c sm) ∙ ap (expected cs key) (view-run_call c key sm)

abbrev pub view_history : {A : Type 0} → View A → List (Message A)
view_history none = []
view_history (some v) = v.0

abbrev pub view_summary : {A : Type 0} → View A → Text
view_summary none = []
view_summary (some v) = v.1

pub get_history-view :
    {A : Type 0} (key : Text) (m : SessionManager A) → get_history key m ≡ view_history (view key m)
unfolding get_history view
get_history-view key m = elim (Option-cases (lookup key m.sessions)) [
  | inl e ↦ rw (e, get_history, view)
  | inr (s, e) ↦ rw (e, get_history, view)
]

get_summary-view :
    {A : Type 0} (key : Text) (m : SessionManager A) → get_summary key m ≡ view_summary (view key m)
unfolding get_summary view
get_summary-view key m = elim (Option-cases (lookup key m.sessions)) [
  | inl e ↦ rw (e, get_summary, view)
  | inr (s, e) ↦ rw (e, get_summary, view)
]

-- After any sequence of calls, for any keys, the history and the summary of each key are those that the
-- calls for this key alone lead to: a message is appended, a history is cut to its last messages or
-- replaced, and only a message or `GetOrCreate` makes a session.
pub view-run :
    {A : Type 0} (calls : List (Call A)) (key : Text) (sm : SessionManager A)
    → (get_history key (run calls sm) ≡ view_history (expected calls key (view key sm)))
      × (get_summary key (run calls sm) ≡ view_summary (expected calls key (view key sm)))
view-run calls key sm = (
  get_history-view key (run calls sm) ∙ ap view_history (run-expected calls key sm),
  get_summary-view key (run calls sm) ∙ ap view_summary (run-expected calls key sm),
)
