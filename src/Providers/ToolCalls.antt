-- ===== src/Providers/ToolCalls.antt =====
-- pkg/providers/toolcall_utils.go: a tool call with its name and its arguments in both places.
pub mod Normalized
pub mod Examples
use elvis.Base.{
  ◌≡◌, ◌≢◌, refl, sym, ap, ◌∙◌, Bool, true, false, ◌&&◌, not, Bool-cases, Option-cases, inl, inr,
  List, [], ◌∷◌, Option, none, some, Text, is_nil, if◌then◌else◌, arith,
}
use elvis.Session.{FunctionCall, ToolCall}

-- What `encoding/json` and Go's maps do with the values of `map[string]any`, which `A` stands for:
-- `unmarshal` is `none` for an error and for `null`.
pub record Arguments (A : Type 0) : Type 0 where
  pub marshal : A → Text
  pub unmarshal : Text → Option A
  pub empty : A
  pub is_empty : A → Bool
  -- `args[key].(string)`
  pub string_field : A → Text → Option Text

module _ {A : Type 0} ⦃j : Arguments A⦄ where
  abbrev pub own_name : ToolCall A → Text
  own_name tc = elim tc.function [
    | none ↦ tc.name
    | some f ↦ if is_nil tc.name then f.name else tc.name
  ]

  abbrev pub given : ToolCall A → A
  given tc = elim tc.arguments [ none ↦ j.empty | some a ↦ a ]

  abbrev pub parsed : A → Option FunctionCall → A
  parsed args none = args
  parsed args (some f) =
      if j.is_empty args && not (is_nil f.arguments)
      then elim (j.unmarshal f.arguments) [ none ↦ args | some p ↦ p ]
      else args

  abbrev pub filled : Text → A → Option FunctionCall → FunctionCall
  filled name args none = record { name = name; arguments = j.marshal args; thought_signature = [] }
  filled name args (some f) = record f {
    name = if is_nil f.name then name else f.name;
    arguments = if is_nil f.arguments then j.marshal args else f.arguments;
  }

  unfoldable pub normalize_tool_call : ToolCall A → ToolCall A
  normalize_tool_call tc =
      let name = own_name tc in
      let args = parsed (given tc) tc.function in
      let function = filled name args tc.function in
      record tc {
        name = if is_nil name then function.name else name;
        arguments = some args;
        function = some function;
      }
