-- ===== src/Providers/ToolCalls/Examples.antt =====
-- Tool calls of pkg/providers/toolcall_utils.go at a simple form of arguments.
use elvis.Base.{◌≡◌, refl, [], ◌∷◌, Option, none, some, Text, codes, is_nil, text_eq, if◌then◌else◌}
use elvis.Session.{ToolCall}
use elvis.Providers.ToolCalls.{Arguments, normalize_tool_call}
use elvis.Providers.ToolCalls.Normalized.{ReadsBack}

abbrev read_quoted : Text → Option Text
read_quoted [] = none
read_quoted (c ∷ t) = some t

-- Arguments that are a text, written with a quote before them; the text is the argument "content".
instance abbrev pub quoted : Arguments Text
quoted = record {
  marshal = λ a. b'"' ∷ a;
  unmarshal = read_quoted;
  empty = [];
  is_empty = is_nil;
  string_field = λ a key. if text_eq key (codes "content") then some a else none;
}

quoted-ReadsBack : ReadsBack Text quoted
quoted-ReadsBack = (λ a. refl, λ a. refl)

abbrev pub call : Text → Text → ToolCall Text
call id name = record {
  id = id;
  kind = [];
  function = some (record { name = name; arguments = codes "'hi"; thought_signature = [] });
  name = [];
  arguments = none;
  thought_signature = [];
  extra_content = none;
}

parsed_call : (normalize_tool_call (call (codes "1") (codes "f"))).arguments ≡ some (codes "hi")
unfolding normalize_tool_call
parsed_call = refl

named_call : (normalize_tool_call (call (codes "1") (codes "f"))).name ≡ codes "f"
unfolding normalize_tool_call
named_call = refl
