-- ===== src/Agent/Summary.antt =====
-- pkg/agent/loop.go: when a session's history is summarised, and how.
pub mod History
use elvis.Base.{
  ℕ, ◌-◌, ◌*◌, ◌/◌, Bool, true, false, ◌||◌, not, List, [], ◌∷◌, ◌++◌, Option, none, some, Text,
  codes, length, take, drop, is_nil, ltb, leb, if◌then◌else◌,
}
use elvis.Session.{Message, SessionManager, get_history, get_summary, set_summary, truncate_history}
use elvis.Agent.Context.{role_user, role_assistant, has_role}
use elvis.Agent.Compress.{estimate_tokens}

abbrev or_empty : Option Text → Text
or_empty none = []
or_empty (some t) = t

abbrev merge_prompt : Text → Text → Text
merge_prompt s1 s2 =
    codes "Merge these two conversation summaries into one cohesive summary:"
    ++ 10 ∷ 10 ∷ codes "1: "
    ++ s1
    ++ 10 ∷ 10 ∷ codes "2: "
    ++ s2

abbrev omission_note : Text
omission_note =
    10 ∷ codes "[Note: Some oversized messages were omitted from this summary for efficiency.]"

module _ {A : Type 0} where
  -- `summarizing` holds the keys of the summaries under way. A new one is begun if there is one more key.
  unfoldable pub needs_summary : ℕ → List (Message A) → Bool
  needs_summary context_window history =
      ltb 20 (length history) || ltb (context_window * 75 / 100) (estimate_tokens history)

  abbrev speaks : Message A → Bool
  speaks m = has_role role_user m || has_role role_assistant m

  abbrev oversized : ℕ → Message A → Bool
  oversized context_window m = ltb (context_window / 2) (length m.content / 2)

  -- The messages that are summarised, and whether one was left out for its size.
  unfoldable pub valid_messages : ℕ → List (Message A) → List (Message A) × Bool
  valid_messages context_window [] = ([], false)
  valid_messages context_window (m ∷ ms) =
      let (kept, omitted) = valid_messages context_window ms in
      if not (speaks m)
      then (kept, omitted)
      else if oversized context_window m
      then (kept, true)
      else (m ∷ kept, omitted)

  unfoldable pub conversation_lines : List (Message A) → Text
  conversation_lines [] = []
  conversation_lines (m ∷ ms) = m.role ++ codes ": " ++ m.content ++ 10 ∷ conversation_lines ms

  unfoldable pub batch_prompt : List (Message A) → Text → Text
  batch_prompt batch existing_summary =
      codes
        "Provide a concise summary of this conversation segment, preserving core context and key points."
      ++ 10
        ∷ (if is_nil existing_summary
            then []
            else codes "Existing context: " ++ existing_summary ++ 10 ∷ [])
      ++ 10 ∷ codes "CONVERSATION:"
      ++ 10 ∷ conversation_lines batch

-- `chat` is the provider's answer to a prompt, `none` an error.
module _ (chat : Text → Option Text) where
  unfoldable pub merge_summaries : Text → Text → Text
  merge_summaries s1 s2 = elim (chat (merge_prompt s1 s2)) [
    | some merged ↦ merged
    | none ↦ s1 ++ 32 ∷ s2
  ]

  module _ {A : Type 0} where
    unfoldable pub summarize_batch : List (Message A) → Text → Text
    summarize_batch batch existing_summary = or_empty (chat (batch_prompt batch existing_summary))

    unfoldable pub final_summary : List (Message A) → Text → Text
    final_summary valid summary =
        let mid = length valid / 2 in
        if ltb 10 (length valid)
        then merge_summaries (summarize_batch (take mid valid) [])
            (summarize_batch (drop mid valid) [])
        else summarize_batch valid summary

    -- The summary of the history that is read first, `none` if it is not replaced.
    unfoldable pub new_summary : ℕ → List (Message A) → Text → Option Text
    new_summary context_window history summary =
        let (valid, omitted) = valid_messages context_window (take (length history - 4) history) in
        let text = final_summary valid summary in
        if leb (length history) 4
        then none
        else if is_nil valid
        then none
        else if is_nil text
        then none
        else some (if omitted then text ++ omission_note else text)

    -- `meanwhile` is what others do to the sessions while the provider answers.
    unfoldable pub summarize_session :
        ℕ
        → ℕ
        → Text
        → (SessionManager A → SessionManager A)
        → SessionManager A
        → SessionManager A × Bool
    summarize_session context_window now key meanwhile sm =
        elim (new_summary context_window (get_history key sm) (get_summary key sm)) [
          | none ↦ (meanwhile sm, false)
          | some summary ↦
              (truncate_history now key 4 (set_summary now key summary (meanwhile sm)), true)
        ]
