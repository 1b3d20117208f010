-- ===== src/Message/Examples.antt =====
-- Messages split by pkg/utils/message.go, and the theorems about it at concrete texts.
use elvis.Base.{◌∷◌, ◌++◌, [], refl, suc, ◌≡◌, List, Text, codes, length, All, ◌≤◌, arith}
use elvis.Strings.Ink.{ink}
use elvis.Message.{
  split_message, chunks, out_of_fuel, round, split_long, find_last_unclosed_code_block,
  unclosed_from, first_end, natural_end, find_last_newline, scan_back, effective_limit,
  code_block_buffer, byte_at, split_block, find_next_closing_code_block, closing_from, header_end,
  index_newline, split_before, find_last_space, plain_cut, inject, header, trim_right, drop_blank,
}
use elvis.Message.Bounds.{split_message-bounded}
use elvis.Message.Divergence.{block, split_message-diverges}
use elvis.Message.Progress.{inks, split_message-total}
use elvis.Strings.{trim_space, trim_from, space_width, last_space_width}

abbrev sentence : Text
sentence = codes "one two three four"

abbrev fenced : Text
fenced =
    codes "see ```" ++ 10 ∷ codes "let x = 1" ++ 10 ∷ codes "let y = 2" ++ 10 ∷ codes "``` done"

abbrev fenced_chunks : List Text
fenced_chunks =
    codes "see"
    ∷ (codes "```" ++ 10 ∷ codes "let x = 1" ++ 10 ∷ codes "let y" ++ 10 ∷ codes "```")
    ∷ (codes "```" ++ 10 ∷ codes " = 2" ++ 10 ∷ codes "``` done")
    ∷ []

fenced_split : split_message 20 24 fenced ≡ chunks fenced_chunks
unfolding split_message round split_long find_last_unclosed_code_block unclosed_from first_end
    natural_end find_last_newline scan_back effective_limit code_block_buffer byte_at split_block
    find_next_closing_code_block closing_from header_end index_newline split_before find_last_space
    plain_cut trim_space trim_from space_width last_space_width inject header trim_right drop_blank
fenced_split = refl

split_message-bounded_example : All (λ c. length c ≤ 24) fenced_chunks
split_message-bounded_example = split_message-bounded 20 24 fenced fenced_chunks fenced_split

split_message-total_example :
    (cs : List Text) × (split_message (suc (length sentence)) 8 sentence ≡ chunks cs)
    × (inks cs ≡ ink sentence)
split_message-total_example = split_message-total 8 sentence (ground arith) (ground arith)

abbrev long_line : Text
long_line = codes "data:image/png"

split_message-diverges_example :
    split_message 1000 10 (block long_line (codes "some text" ++ 10 ∷ codes "```")) ≡ out_of_fuel
split_message-diverges_example =
    split_message-diverges 1000 10 long_line (codes "some text" ++ 10 ∷ codes "```") (ground arith)
      (ground arith) (ground arith)
