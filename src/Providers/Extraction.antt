-- ===== src/Providers/Extraction.antt =====
-- pkg/providers/tool_call_extract.go: tool calls in the text of a response, and the scan for their end in
-- pkg/providers/claude_cli_provider.go. `A` stands for `map[string]any`.
pub mod Braces
mod Examples
use elvis.Base.{
  ℕ, zero, suc, ◌+◌, ◌-◌, Bool, true, false, ◌&&◌, List, [], ◌∷◌, ◌++◌, Option, none, some, Text,
  codes, length, take, drop, map, ◌==◌, if◌then◌else◌, ℤ, pos, negsuc,
}
use elvis.Strings.{has_prefix, trim_space}
use elvis.Session.{FunctionCall, ToolCall}

-- `strings.Index(s, p)`; `none` is -1.
unfoldable pub index : Text → Text → Option ℕ
index [] p = if has_prefix [] p then some 0 else none
index (c ∷ s) p =
    let rest = index s p in
    if has_prefix (c ∷ s) p then some 0 else elim rest [ none ↦ none | some i ↦ some (suc i) ]

-- `s[start:end]`
abbrev pub slice : Text → ℕ → ℕ → Text
slice s start end = take (end - start) (drop start s)

-- The depth after a byte.
unfoldable pub next_depth : ℕ → ℤ → ℤ
next_depth c (pos zero) = if c == b'{' then pos 1 else if c == b'}' then negsuc 0 else pos 0
next_depth c (pos (suc n)) =
    if c == b'{' then pos (suc (suc n)) else if c == b'}' then pos n else pos (suc n)
next_depth c (negsuc zero) = if c == b'{' then pos 0 else if c == b'}' then negsuc 1 else negsuc 0
next_depth c (negsuc (suc n)) =
    if c == b'{' then negsuc n else if c == b'}' then negsuc (suc (suc n)) else negsuc (suc n)

unfoldable pub is_zero : ℤ → Bool
is_zero (pos zero) = true
is_zero (pos (suc n)) = false
is_zero (negsuc n) = false

-- The loop at `text[i]`, with the rest of the text from there on.
unfoldable pub matching_from : ℤ → ℕ → Text → Option ℕ
matching_from depth i [] = none
matching_from depth i (c ∷ s) =
    let after = next_depth c depth in
    let rest = matching_from after (suc i) s in
    if c == b'}' && is_zero after then some (suc i) else rest

unfoldable pub find_matching_brace : Text → ℕ → ℕ
find_matching_brace text start = elim (matching_from (pos 0) start (drop start text)) [
  | none ↦ start
  | some e ↦ e
]

-- An element of the wrapper's list.
pub record WrappedCall : Type 0 where
  pub id : Text
  pub kind : Text
  pub name : Text
  pub arguments : Text

-- `{"tool_calls"`
abbrev pub marker : Text
marker = b'{' ∷ b'"' ∷ codes "tool_calls" ++ b'"' ∷ []

-- What `json.Unmarshal` makes of the wrapper, `none` being an error, and of the arguments of a call, `none`
-- being the nil map that an error leaves.
pub record Decoder (A : Type 0) : Type 0 where
  pub wrapper : Text → Option (List WrappedCall)
  pub arguments : Text → Option A

module _ {A : Type 0} (json : Decoder A) where
  abbrev pub unwrap : WrappedCall → ToolCall A
  unwrap tc = record {
    id = tc.id;
    kind = tc.kind;
    function = some (record { name = tc.name; arguments = tc.arguments; thought_signature = [] });
    name = tc.name;
    arguments = json.arguments tc.arguments;
    thought_signature = [];
    extra_content = none;
  }

  abbrev pub decode_calls : Text → List (ToolCall A)
  decode_calls json_str = elim (json.wrapper json_str) [ none ↦ [] | some calls ↦ map unwrap calls ]

  unfoldable pub extract_tool_calls_from_text : Text → List (ToolCall A)
  extract_tool_calls_from_text text = elim (index text marker) [
    | none ↦ []
    | some start ↦
        let end = find_matching_brace text start in
        if end == start then [] else decode_calls (slice text start end)
  ]

unfoldable pub strip_tool_calls_from_text : Text → Text
strip_tool_calls_from_text text = elim (index text marker) [
  | none ↦ text
  | some start ↦
      let end = find_matching_brace text start in
      if end == start then text else trim_space (take start text ++ drop end text)
]
