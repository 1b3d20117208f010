-- ===== src/Providers/Extraction/Examples.antt =====
-- The extraction of pkg/providers/tool_call_extract.go on concrete texts.
use elvis.Base.{
  ◌≡◌, refl, ◌∷◌, ◌++◌, [], Bool, true, false, some, Text, codes, ◌==◌, if◌then◌else◌, arith,
}
use elvis.Strings.{trim_space, has_prefix}
use elvis.Providers.Extraction.{
  index, find_matching_brace, Decoder, marker, decode_calls, extract_tool_calls_from_text,
  strip_tool_calls_from_text, matching_from, is_zero, next_depth,
}
use elvis.Providers.Extraction.Braces.{Balanced, empty, plain, extract-block}

after_close : find_matching_brace (codes "{}") 0 ≡ 2
unfolding find_matching_brace matching_from is_zero next_depth
after_close = refl

nested : find_matching_brace (codes "{{{}}}") 0 ≡ 6
unfolding find_matching_brace matching_from is_zero next_depth
nested = refl

in_text : find_matching_brace (b'{' ∷ codes "\"a\":\"b{c}d\"" ++ b'}' ∷ []) 0 ≡ 13
unfolding find_matching_brace matching_from is_zero next_depth
in_text = refl

unclosed : find_matching_brace (codes "{unclosed") 0 ≡ 0
unfolding find_matching_brace matching_from
unclosed = refl

-- Decodes to one call.
abbrev one_call : Decoder Text
one_call = record {
  wrapper = λ s.
      some (
        record { id = codes "1"; kind = codes "function"; name = codes "now"; arguments = s } ∷ []);
  arguments = λ s. some s;
}

abbrev inner : Text
inner = b'"' ∷ codes "tool_calls" ++ b'"' ∷ codes ":[]"

-- A text without braces.
has_no_braces : Text → Bool
has_no_braces [] = true
has_no_braces (c ∷ s) =
    let rest = has_no_braces s in if c == b'{' then false else if c == b'}' then false else rest

no_braces-Balanced : (s : Text) → has_no_braces s ≡ true → Balanced s
unfolding has_no_braces
no_braces-Balanced [] h = empty
no_braces-Balanced (c ∷ s) h =
    plain c s (λ e. absurd (ground arith)) (λ e. absurd (ground arith))
      (no_braces-Balanced s (ground arith))

inner_plain : has_no_braces inner ≡ true
unfolding has_no_braces
inner_plain = refl

-- A brace in a string of the block is taken for the block's end.
cut_short : find_matching_brace (codes "{\"a\":\"}\"}") 0 ≡ 7
unfolding find_matching_brace matching_from is_zero next_depth
cut_short = refl

found : index (codes "hi " ++ (b'{' ∷ (inner ++ (b'}' ∷ codes " end")))) marker ≡ some 3
unfolding index has_prefix
found = refl

extract-block_example :
    let text = codes "hi " ++ (b'{' ∷ (inner ++ (b'}' ∷ codes " end"))) in
    (extract_tool_calls_from_text one_call text
      ≡ decode_calls one_call (b'{' ∷ (inner ++ (b'}' ∷ []))))
    × (strip_tool_calls_from_text text ≡ trim_space (codes "hi " ++ codes " end"))
extract-block_example =
    extract-block one_call (codes "hi ") inner (codes " end") (no_braces-Balanced inner inner_plain)
      found
