-- ===== src/Message.antt =====
-- pkg/utils/message.go: a long message cut into chunks for a channel with a limit.
-- A Go index that is -1 where nothing is found is `none`; where the code treats -1 and 0 alike
-- (`<= 0`), `or_zero` joins them. The maximal length is a natural number.
pub mod Scans
pub mod Bounds
pub mod Progress
pub mod PlainLines
pub mod Divergence
mod Examples
use elvis.Base.{
  ℕ, zero, suc, ◌+◌, ◌-◌, ◌*◌, ◌/◌, Bool, true, false, ◌&&◌, ◌||◌, not, List, [], ◌∷◌, ◌++◌, Option,
  none, some, Text, codes, length, take, drop, ltb, leb, ◌==◌, is_nil, if◌then◌else◌,
}
use mathlib.Core.List.{reverse}
use elvis.Strings.{trim_space}

unfoldable pub byte_at : Text → ℕ → ℕ
byte_at [] i = 0
byte_at (c ∷ s) zero = c
byte_at (c ∷ s) (suc i) = byte_at s i

-- `for i := n - 1; i >= start; i--`: the last position that passes a test.
unfoldable pub scan_back : (ℕ → Bool) → Text → ℕ → ℕ → Option ℕ
scan_back p s start zero = none
scan_back p s start (suc i) = elim (ltb i start) [
  | true ↦ none
  | false ↦ elim (p (byte_at s i)) [ true ↦ some i | false ↦ scan_back p s start i ]
]

unfoldable pub find_last_newline : Text → ℕ → Option ℕ
find_last_newline s window = scan_back (λ c. c == 10) s (length s - window) (length s)

unfoldable pub find_last_space : Text → ℕ → Option ℕ
find_last_space s window = scan_back (λ c. c == 32 || c == 9) s (length s - window) (length s)

abbrev pub is_fence : ℕ → ℕ → ℕ → Bool
is_fence a b c = a == b'`' && b == b'`' && c == b'`'

-- The loop of `findLastUnclosedCodeBlock` from position `i` on.
unfoldable pub unclosed_from : ℕ → Bool → ℕ → Text → Option ℕ
unclosed_from i in_block last (a ∷ b ∷ c ∷ s) = elim (is_fence a b c) [
  | true ↦ unclosed_from (i + 3) (not in_block) (if in_block then last else i) s
  | false ↦ unclosed_from (i + 1) in_block last (b ∷ c ∷ s)
]
unclosed_from i true last _ = some last
unclosed_from i false last _ = none

unfoldable pub find_last_unclosed_code_block : Text → Option ℕ
find_last_unclosed_code_block text = unclosed_from 0 false 0 text

-- The loop of `findNextClosingCodeBlock` from position `i` on.
unfoldable pub closing_from : ℕ → Text → Option ℕ
closing_from i (a ∷ b ∷ c ∷ s) = elim (is_fence a b c) [
  | true ↦ some (i + 3)
  | false ↦ closing_from (i + 1) (b ∷ c ∷ s)
]
closing_from i _ = none

unfoldable pub find_next_closing_code_block : Text → ℕ → Option ℕ
find_next_closing_code_block text start = closing_from start (drop start text)

-- `strings.Index(s, "\n")`
unfoldable pub index_newline : ℕ → Text → Option ℕ
index_newline i [] = none
index_newline i (c ∷ s) = elim (c == 10) [ true ↦ some i | false ↦ index_newline (i + 1) s ]

abbrev pub or_zero : Option ℕ → ℕ
or_zero none = 0
or_zero (some n) = n

-- `strings.TrimRight(s, " \t\n\r")`
unfoldable pub drop_blank : Text → Text
drop_blank [] = []
drop_blank (c ∷ s) = if c == 32 || c == 9 || c == 10 || c == 13 then drop_blank s else c ∷ s

unfoldable pub trim_right : Text → Text
trim_right s = reverse (drop_blank (reverse s))

-- One round of the loop: the last chunk, if any; a chunk and what is left; or a slice out of range.
pub data Round : Type 0 where
  stop : Option Text → Round
  emit : Text → Text → Round
  panic : Round

unfoldable pub code_block_buffer : ℕ → ℕ
code_block_buffer max_len =
    let tenth = max_len / 10 in
    let buffer = if ltb tenth 50 then 50 else tenth in
    if ltb (max_len / 2) buffer then max_len / 2 else buffer

unfoldable pub effective_limit : ℕ → ℕ
effective_limit max_len =
    let limit = max_len - code_block_buffer max_len in
    if ltb limit (max_len / 2) then max_len / 2 else limit

-- The last newline in the window, else the last space, else 0.
unfoldable pub natural_end : Text → ℕ
natural_end s =
    let newline = or_zero (find_last_newline s 200) in
    if newline == 0 then or_zero (find_last_space s 100) else newline

-- The split point before code blocks are looked at.
unfoldable pub first_end : ℕ → Text → ℕ
first_end max_len content =
    let end = natural_end (take (effective_limit max_len) content) in
    if end == 0 then effective_limit max_len else end

-- `messages = append(messages, content[:msgEnd])`
unfoldable pub plain_cut : ℕ → Text → ℕ → Round
plain_cut max_len content end =
    let msg_end = if end == 0 then effective_limit max_len else end in
    emit (take msg_end content) (trim_space (drop msg_end content))

abbrev pub closing_fence : Text
closing_fence = 10 ∷ codes "```"

-- The chunk gets a closing fence, and the rest begins with the block's header again.
unfoldable pub inject : Text → Text → ℕ → Round
inject content header end =
    emit (trim_right (take end content) ++ closing_fence)
      (trim_space (header ++ 10 ∷ drop end content))

unfoldable pub header_end : Text → ℕ → ℕ
header_end content unclosed = elim (index_newline 0 (drop unclosed content)) [
  | none ↦ unclosed + 3
  | some i ↦ i + unclosed
]

unfoldable pub header : Text → ℕ → Text
header content unclosed =
    trim_space (take (header_end content unclosed - unclosed) (drop unclosed content))

-- Inside a long block: a newline behind the header, or the limit less 5 bytes.
unfoldable pub split_inside : ℕ → Text → ℕ → Round
split_inside max_len content unclosed =
    let inner_limit = max_len - 5 in
    let better = or_zero (find_last_newline (take inner_limit content) 200) in
    inject content (header content unclosed)
      (if ltb (header_end content unclosed) better then better else inner_limit)

-- Before the block, or, as the last resort, inside it.
unfoldable pub split_before : ℕ → Text → ℕ → Round
split_before max_len content unclosed =
    let new_end = natural_end (take unclosed content) in
    if ltb 0 new_end
    then plain_cut max_len content new_end
    else if ltb 20 unclosed
    then plain_cut max_len content unclosed
    else if ltb max_len 5
    then panic
    else inject content (header content unclosed) (max_len - 5)

-- The chunk would end inside the block that is opened at `unclosed`. (`len(content) > msgEnd` holds.)
unfoldable pub split_block : ℕ → Text → ℕ → ℕ → Round
split_block max_len content msg_end unclosed =
    let closing = or_zero (find_next_closing_code_block content msg_end) in
    if ltb 0 closing && leb closing max_len
    then plain_cut max_len content closing
    else if ltb (header_end content unclosed + 20) msg_end
    then split_inside max_len content unclosed
    else split_before max_len content unclosed

unfoldable pub split_long : ℕ → Text → Round
split_long max_len content =
    let msg_end = first_end max_len content in
    elim (find_last_unclosed_code_block (take msg_end content)) [
      | none ↦ plain_cut max_len content msg_end
      | some unclosed ↦ split_block max_len content msg_end unclosed
    ]

unfoldable pub round : ℕ → Text → Round
round max_len content =
    if is_nil content
    then stop none
    else if leb (length content) max_len
    then stop (some content)
    else split_long max_len content

pub data Result : Type 0 where
  chunks : List Text → Result
  panicked : Result
  out_of_fuel : Result

abbrev pub add_chunk : Text → Result → Result
add_chunk c (chunks cs) = chunks (c ∷ cs)
add_chunk c panicked = panicked
add_chunk c out_of_fuel = out_of_fuel

abbrev pub last_chunk : Option Text → Result
last_chunk none = chunks []
last_chunk (some c) = chunks (c ∷ [])

-- `SplitMessage`, for at most `fuel` rounds.
unfoldable pub split_message : ℕ → ℕ → Text → Result
split_message zero max_len content = out_of_fuel
split_message (suc fuel) max_len content = elim (round max_len content) [
  | stop last ↦ last_chunk last
  | panic ↦ panicked
  | emit chunk rest ↦ add_chunk chunk (split_message fuel max_len rest)
]
