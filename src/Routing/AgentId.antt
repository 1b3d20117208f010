-- ===== src/Routing/AgentId.antt =====
-- pkg/routing/agent_id.go: agent and account IDs made safe for session keys.
pub mod Shape
pub mod Fixed
mod Examples
use elvis.Base.{
  ℕ, Bool, true, false, ◌&&◌, ◌||◌, List, [], ◌∷◌, Text, codes, length, take, all, ltb, leb, ◌==◌,
  is_nil, if◌then◌else◌,
}
use mathlib.Core.List.{reverse}
use elvis.Strings.{Unicode, to_lower, trim_space}

abbrev pub default_agent_id : Text
default_agent_id = codes "main"

abbrev pub default_main_key : Text
default_main_key = codes "main"

abbrev pub default_account_id : Text
default_account_id = codes "default"

abbrev pub max_agent_id_length : ℕ
max_agent_id_length = 64

-- `[a-z0-9]` and `[a-z0-9_-]`
abbrev pub is_alnum : ℕ → Bool
is_alnum c = leb b'a' c && leb c b'z' || leb b'0' c && leb c b'9'

abbrev pub is_id_byte : ℕ → Bool
is_id_byte c = is_alnum c || c == b'_' || c == b'-'

-- `validIDRe.MatchString`
unfoldable pub is_valid_id : Text → Bool
is_valid_id [] = false
is_valid_id (c ∷ s) = is_alnum c && all is_id_byte s && leb (length s) 63

-- `invalidCharsRe.ReplaceAllString(s, "-")`: one dash for each run of other bytes. `in_run` says that
-- the byte before was such a byte.
unfoldable pub replace_invalid : Bool → Text → Text
replace_invalid in_run [] = []
replace_invalid in_run (c ∷ s) = elim (is_id_byte c) [
  | true ↦ c ∷ replace_invalid false s
  | false ↦ elim in_run [ true ↦ replace_invalid true s | false ↦ b'-' ∷ replace_invalid true s ]
]

-- `leadingDashRe.ReplaceAllString(s, "")`
unfoldable pub strip_leading : Text → Text
strip_leading [] = []
strip_leading (c ∷ s) = if c == b'-' then strip_leading s else c ∷ s

-- `trailingDashRe.ReplaceAllString(s, "")`
unfoldable pub strip_trailing : Text → Text
unfolding strip_leading
strip_trailing s = reverse (strip_leading (reverse s))

abbrev pub or_default : Text → Text → Text
or_default fallback s = if is_nil s then fallback else s

-- A lower-case ID that is not valid, made valid as far as the code does.
unfoldable pub sanitize : Text → Text → Text
sanitize fallback lower =
    let stripped = strip_trailing (strip_leading (replace_invalid false lower)) in
    or_default fallback (
      if ltb max_agent_id_length (length stripped)
      then take max_agent_id_length stripped
      else stripped)

-- The two functions differ in their default only.
unfoldable pub normalize_id : ⦃u : Unicode⦄ → Text → Text → Text
normalize_id fallback id =
    let trimmed = trim_space id in
    let lower = to_lower trimmed in
    if is_nil trimmed
    then fallback
    else if is_valid_id lower
    then lower
    else sanitize fallback lower

unfoldable pub normalize_agent_id : ⦃u : Unicode⦄ → Text → Text
normalize_agent_id id = normalize_id default_agent_id id

unfoldable pub normalize_account_id : ⦃u : Unicode⦄ → Text → Text
normalize_account_id id = normalize_id default_account_id id
