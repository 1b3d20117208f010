-- ===== src/Providers/ToolCalls/Normalized.antt =====
-- pkg/providers/toolcall_utils.go: a normalised tool call.
use elvis.Base.{
  ◌≡◌, refl, ap, ap₂, ◌∙◌, Bool, true, false, ◌&&◌, not, Bool-cases, Option-cases, inl, inr, [],
  ◌∷◌, Option, none, some, Text, is_nil, if◌then◌else◌, arith,
}
use elvis.Session.{FunctionCall, ToolCall}
use elvis.Providers.ToolCalls.{Arguments, own_name, given, parsed, filled, normalize_tool_call}

-- What `encoding/json` does with arguments: no text is empty, and a text is read back as what it was
-- written from.
abbrev pub ReadsBack : (A : Type 0) → Arguments A → Type 0
ReadsBack A j =
    ((a : A) → is_nil (j.marshal a) ≡ false) × ((a : A) → j.unmarshal (j.marshal a) ≡ some a)

module _ {A : Type 0} ⦃j : Arguments A⦄ (law : ReadsBack A j) where
  -- What the function's arguments `t` make of `args`.
  step : A → Text → A
  step args t =
      if j.is_empty args && not (is_nil t)
      then elim (j.unmarshal t) [ none ↦ args | some p ↦ p ]
      else args

  step-marshal : (args : A) → step args (j.marshal args) ≡ args
  unfolding step
  step-marshal args = elim (Bool-cases (j.is_empty args)) [
    | inl e ↦ rw (e, law.0 args, law.1 args) refl
    | inr e ↦ rw e refl
  ]

  step_twice : (args : A) (t : Text) → is_nil t ≡ false → step (step args t) t ≡ step args t
  unfolding step
  step_twice args t h = elim (Bool-cases (j.is_empty args)) [
    | inr e ↦ rw (e, e) refl
    | inl e ↦ elim (Option-cases (j.unmarshal t)) [
      | inl k ↦ rw (e, h, k, e, h, k) refl
      | inr (p, k) ↦ rw (e, h, k) (same p (j.is_empty p))
    ]
  ]
    where
      same : (p : A) (b : Bool) → (if b && true then p else p) ≡ p
      same p true = refl
      same p false = refl

  parsed_twice :
      (args : A) (name : Text) (o : Option FunctionCall)
      → parsed (parsed args o) (some (filled name (parsed args o) o)) ≡ parsed args o
  unfolding step
  parsed_twice args name none = step-marshal args
  parsed_twice args name (some f) = go (is_nil f.arguments) refl
    where
      go :
          (b : Bool)
          → is_nil f.arguments ≡ b
          → step
              (step args f.arguments)
              (if b then j.marshal (step args f.arguments) else f.arguments)
            ≡ step args f.arguments
      go true e = step-marshal (step args f.arguments)
      go false e = step_twice args f.arguments e

  name_twice :
      (name other : Text)
      → (is_nil name ≡ true → other ≡ [])
      → (if is_nil name then other else name) ≡ name
  name_twice [] other h = h refl
  name_twice (c ∷ name) other h = refl

  arguments_twice :
      (t : Text) (args : A) → is_nil t ≡ false → (if is_nil t then j.marshal args else t) ≡ t
  arguments_twice t args h = rw h refl

  filled-not_nil :
      (name : Text) (args : A) (o : Option FunctionCall)
      → is_nil (filled name args o).arguments ≡ false
  filled-not_nil name args none = law.0 args
  filled-not_nil name args (some f) = go (is_nil f.arguments) refl
    where
      go :
          (b : Bool)
          → is_nil f.arguments ≡ b
          → is_nil (if b then j.marshal args else f.arguments) ≡ false
      go true e = law.0 args
      go false e = e

  filled_twice :
      (name other : Text) (args : A) (o : Option FunctionCall)
      → (is_nil (filled name args o).name ≡ true → other ≡ [])
      → filled other args (some (filled name args o)) ≡ filled name args o
  filled_twice name other args o h =
      ap₂ (λ n t. record (filled name args o) { name = n; arguments = t })
        (name_twice (filled name args o).name other h)
        (arguments_twice (filled name args o).arguments args (filled-not_nil name args o))

  -- The name in the result: the function's, where the call has none.
  named : Text → Text → Text
  named name function = if is_nil name then function else name

  nil-eq : (t : Text) → is_nil t ≡ true → t ≡ []
  nil-eq [] h = refl
  nil-eq (c ∷ t) h = absurd (ground arith)

  named_twice : (name function : Text) → named (named name function) function ≡ named name function
  unfolding named
  named_twice [] [] = refl
  named_twice [] (c ∷ f) = refl
  named_twice (c ∷ name) f = refl

  filled-name_nil :
      (name : Text) (args : A) (o : Option FunctionCall)
      → is_nil (filled name args o).name ≡ true
      → name ≡ []
  filled-name_nil [] args o h = refl
  filled-name_nil (c ∷ name) args none h = absurd (ground arith)
  filled-name_nil (c ∷ name) args (some f) h = go f.name h
    where
      go : (n : Text) → is_nil (if is_nil n then c ∷ name else n) ≡ true → c ∷ name ≡ []
      go [] h = absurd (ground arith)
      go (d ∷ n) h = absurd (ground arith)

  -- A normalised tool call is normal: normalising it once more changes nothing.
  normalize_tool_call_idem :
      (tc : ToolCall A) → normalize_tool_call (normalize_tool_call tc) ≡ normalize_tool_call tc
  unfolding normalize_tool_call named
  normalize_tool_call_idem tc =
      ap₂
        (λ n g. record tc { name = n; arguments = some (parsed args (some f)); function = some g })
        name_same function_same
      ∙ ap (λ a. record tc { name = named name f.name; arguments = some a; function = some f })
          args_same
    where
      name : Text
      name = own_name tc

      args : A
      args = parsed (given tc) tc.function

      f : FunctionCall
      f = filled name args tc.function

      other : Text
      other = named (named name f.name) f.name

      other_nil : is_nil f.name ≡ true → other ≡ []
      other_nil h =
          named_twice name f.name
          ∙ ap₂ named (filled-name_nil name args tc.function h) (nil-eq f.name h)

      args_same : parsed args (some f) ≡ args
      args_same = parsed_twice (given tc) name tc.function

      function_same : filled other (parsed args (some f)) (some f) ≡ f
      function_same =
          ap (λ a. filled other a (some f)) args_same
          ∙ filled_twice name other args tc.function other_nil

      name_same :
          named other (filled other (parsed args (some f)) (some f)).name ≡ named name f.name
      name_same =
          ap (λ g. named other g.name) function_same
          ∙ ap (λ n. named n f.name) (named_twice name f.name)
          ∙ named_twice name f.name
