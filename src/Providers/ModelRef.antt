-- ===== src/Providers/ModelRef.antt =====
-- pkg/providers/model_ref.go: references such as "anthropic/claude-opus".
use elvis.Base.{◌||◌, ◌∷◌, ◌++◌, Option, none, some, Text, codes, text_eq, is_nil, if◌then◌else◌}
use elvis.Strings.{Unicode, to_lower, trim_space, cut}

pub record ModelReference : Type 0 where
  pub provider : Text
  pub model : Text

-- The `switch` of `NormalizeProvider`.
unfoldable pub canonical_provider : Text → Text
canonical_provider p =
    if text_eq p (codes "z.ai") || text_eq p (codes "z-ai")
    then codes "zai"
    else if text_eq p (codes "opencode-zen")
    then codes "opencode"
    else if text_eq p (codes "qwen")
    then codes "qwen-portal"
    else if text_eq p (codes "kimi-code")
    then codes "kimi-coding"
    else if text_eq p (codes "gpt")
    then codes "openai"
    else if text_eq p (codes "claude")
    then codes "anthropic"
    else if text_eq p (codes "glm")
    then codes "zhipu"
    else if text_eq p (codes "google")
    then codes "gemini"
    else p

module _ ⦃u : Unicode⦄ where
  unfoldable pub normalize_provider : Text → Text
  unfolding canonical_provider to_lower trim_space text_eq
  normalize_provider provider = canonical_provider (to_lower (trim_space provider))

  -- A reference with a slash: the text before and behind the first one.
  unfoldable pub with_slash : Text → Text → Option ModelReference
  with_slash before behind =
      let model = trim_space behind in
      if is_nil model
      then none
      else some (record { provider = normalize_provider before; model = model })

  -- `raw` is trimmed and not empty; a slash at its head is no separator.
  unfoldable pub parse_trimmed : Text → Text → Option ModelReference
  unfolding with_slash cut
  parse_trimmed raw default_provider = elim (cut b'/' raw) [
    | some (c ∷ before, behind) ↦ with_slash (c ∷ before) behind
    | _ ↦ some (record { provider = normalize_provider default_provider; model = raw })
  ]

  unfoldable pub parse_model_ref : Text → Text → Option ModelReference
  unfolding parse_trimmed
  parse_model_ref raw default_provider =
      let t = trim_space raw in if is_nil t then none else parse_trimmed t default_provider

  unfoldable pub model_key : Text → Text → Text
  unfolding normalize_provider
  model_key provider model = normalize_provider provider ++ b'/' ∷ to_lower (trim_space model)
