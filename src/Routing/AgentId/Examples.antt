-- ===== src/Routing/AgentId/Examples.antt =====
-- IDs of the kinds in pkg/routing/agent_id_test.go, and the theorems about them at concrete IDs.
use elvis.Base.{◌≡◌, refl, true, Text, codes}
use elvis.Strings.{trim_space, trim_from, space_width, last_space_width, to_lower}
use elvis.Strings.Sample.{ascii_only}
use elvis.Routing.AgentId.{
  is_valid_id, normalize_id, normalize_agent_id, normalize_account_id, sanitize, replace_invalid,
  strip_trailing,
}
use elvis.Routing.AgentId.Shape.{IsNormalized, normalize_ids-IsNormalized}

spaces_to_dashes : normalize_agent_id (codes " My Agent! ") ≡ codes "my-agent"
unfolding normalize_agent_id normalize_id sanitize trim_space trim_from space_width last_space_width
    is_valid_id to_lower strip_trailing replace_invalid
spaces_to_dashes = refl

normalize_ids-IsNormalized_example :
    IsNormalized (normalize_agent_id (codes "My Agent"))
    × IsNormalized (normalize_account_id (codes "My Agent"))
normalize_ids-IsNormalized_example = normalize_ids-IsNormalized (codes "My Agent")

valid_sales : is_valid_id (codes "sales_2") ≡ true
unfolding is_valid_id
valid_sales = refl

abbrev many : Text
many = codes "abcdefghijklmnopqrstuvwxyzabcdefghijklmnopqrstuvwxyzabcdefghij"
