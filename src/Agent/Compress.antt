-- ===== src/Agent/Compress.antt =====
-- pkg/agent/loop.go: what shortens a session's history.
pub mod Shorter
use elvis.Base.{
  ℕ, zero, suc, ◌+◌, ◌-◌, ◌*◌, ◌/◌, ◌%◌, Bool, true, false, ◌&&◌, ◌||◌, not, List, [], ◌∷◌, ◌++◌,
  Option, none, some, Text, codes, length, take, drop, text_eq, is_nil, ltb, leb, ◌==◌,
  if◌then◌else◌,
}
use elvis.Session.{
  Message, SessionManager, get_history, get_summary, set_history, set_summary, truncate_history,
}
use elvis.Agent.Context.{role_user, role_assistant, has_role}

-- `%d`; a number has at most as many digits as the fuel, which is the number itself plus one.
abbrev digits : ℕ → ℕ → Text
digits zero n = []
digits (suc fuel) n =
    let rest = digits fuel (n / 10) in (if ltb n 10 then [] else rest) ++ (n % 10 + b'0') ∷ []

unfoldable pub decimal : ℕ → Text
decimal n = digits (suc n) n

unfoldable pub compression_note : ℕ → Text
compression_note dropped =
    10 ∷ 10 ∷ codes "[System Note: Emergency compression dropped "
    ++ decimal dropped
    ++ codes " oldest messages due to context limit]"

-- The bytes that begin a rune, in valid UTF-8.
unfoldable pub rune_count : Text → ℕ
rune_count [] = 0
rune_count (c ∷ s) = let rest = rune_count s in if leb 0x80 c && leb c 0xBF then rest else suc rest

module _ {A : Type 0} where
  abbrev pub with_note : ℕ → Message A → Message A
  with_note dropped m = record m { content = m.content ++ compression_note dropped }

  -- The new history of a history that is longer than 4. The last message stands behind `conversation`.
  unfoldable pub compress_history : List (Message A) → List (Message A)
  compress_history [] = []
  compress_history (first ∷ rest) =
      let conversation = take (length rest - 1) rest in
      let mid = length conversation / 2 in
      with_note mid first ∷ drop mid conversation ++ drop (length rest - 1) rest

  -- The flag says that the session is saved.
  unfoldable pub force_compression : ℕ → Text → SessionManager A → SessionManager A × Bool
  force_compression now key sm =
      let history = get_history key sm in
      if leb (length history) 4
      then (sm, false)
      else (set_history now key (compress_history history) sm, true)

  unfoldable pub total_chars : List (Message A) → ℕ
  total_chars [] = 0
  total_chars (m ∷ ms) = rune_count m.content + total_chars ms

  unfoldable pub estimate_tokens : List (Message A) → ℕ
  estimate_tokens messages = total_chars messages * 2 / 5
