-- ===== src/Agent/Summary/History.antt =====
-- pkg/agent/loop.go (summarizeSession): the session that a summary leaves.
use elvis.Base.{
  ℕ, ◌≡◌, refl, sym, ap, ◌∙◌, Bool, true, false, List, [], ◌∷◌, Option, none, some, Text, text_eq,
  text_eq_refl, if◌then◌else◌, arith,
}
use elvis.Session.{Message, SessionManager, get_history, get_summary, set_summary, truncate_history}
use elvis.Session.Views.{
  View, Call, summarise, truncate, run, run_call, effect, expected, view, view_history,
  last_messages, view-run, get_history-view,
}
use elvis.Agent.Summary.{new_summary, summarize_session}

-- What is left of a history behind a new summary, or without one.
abbrev pub left_by : {A : Type 0} → Option Text → List (Message A) → List (Message A)
left_by none history = history
left_by (some text) history = last_messages 4 history

module _ {A : Type 0} (chat : Text → Option Text) (context_window now : ℕ) (key : Text) where
  calls : Text → List (Call A)
  calls text = summarise now key text ∷ truncate now key 4 ∷ []

  both : Text → View A → View A
  both text v = effect (truncate now key 4) (effect (summarise now key text) v)

  expected-both : (text : Text) (v : View A) → expected (calls text) key v ≡ both text v
  unfolding expected calls both
  expected-both text v = go (text_eq key key) (text_eq_refl key)
    where
      go :
          (b : Bool)
          → b ≡ true
          → (let w = if b then effect (summarise now key text) v else v in
              if b then effect (truncate now key 4) w else w)
            ≡ both text v
      go true e = refl
      go false e = absurd (ground arith)

  history-both :
      (text : Text) (v : View A) → view_history (both text v) ≡ last_messages 4 (view_history v)
  unfolding both
  history-both text none = refl
  history-both text (some v) = refl

  -- While the provider answers, others may change the sessions (`meanwhile`). Without a new summary the
  -- history that they leave stays; with one, the last four messages of that history stay, whether the
  -- messages before them are in the summary or came in the meantime.
  pub summarize_session-history :
      (meanwhile : SessionManager A → SessionManager A) (sm : SessionManager A)
      → get_history key (summarize_session chat context_window now key meanwhile sm).0
        ≡ left_by
            (new_summary chat context_window (get_history key sm) (get_summary key sm))
            (get_history key (meanwhile sm))
  unfolding summarize_session run run_call calls
  summarize_session-history meanwhile sm =
      go (new_summary chat context_window (get_history key sm) (get_summary key sm))
    where
      done : Text → SessionManager A
      done text = truncate_history now key 4 (set_summary now key text (meanwhile sm))

      pair : SessionManager A → Bool → SessionManager A × Bool
      pair s b = (s, b)

      go :
          (o : Option Text)
          → get_history key
              (elim o as (λ _. SessionManager A × Bool) [
                | none ↦ pair (meanwhile sm) false
                | some text ↦ pair (done text) true
              ]).0
            ≡ left_by o (get_history key (meanwhile sm))
      go none = refl
      go (some text) =
          (view-run (calls text) key (meanwhile sm)).0
          ∙ ap view_history (expected-both text (view key (meanwhile sm)))
          ∙ history-both text (view key (meanwhile sm))
          ∙ ap (last_messages 4) (sym (get_history-view key (meanwhile sm)))
