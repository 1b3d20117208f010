-- ===== src/Providers/Regex.antt =====
-- The part of Go's `regexp` that pkg/providers/error_classifier.go uses: a pattern is a list of pieces,
-- and a search finds the leftmost match by backtracking, greedily. Bytes stand for runes: no piece
-- tells the bytes of a rune above 127 apart, but for the two that `(?i)` folds to `s` and `k`.
use Prim.Native.String.{String}
use elvis.Base.{
  ℕ, ◌-◌, Bool, true, false, ◌&&◌, ◌||◌, not, List, [], ◌∷◌, map, Option, none, some, Text, codes,
  drop, any, leb, ◌==◌, if◌then◌else◌,
}

pub data Piece : Type 0 where
  -- a letter under `(?i)`
  fold : ℕ → Piece
  -- a byte of a class, and one that the group captures
  one : (ℕ → Bool) → Piece
  capture : (ℕ → Bool) → Piece
  -- `[...]?` and `[...]*`
  maybe : (ℕ → Bool) → Piece
  star : (ℕ → Bool) → Piece
  -- `\b`
  boundary : Piece

abbrev pub upper : ℕ → ℕ
upper c = if leb b'a' c && leb c b'z' then c - 32 else c

-- How many bytes a rune at the head takes that `(?i)c` matches; 0 if it does not match.
unfoldable pub fold_width : ℕ → Text → ℕ
fold_width c [] = 0
fold_width c (x ∷ []) = if x == c || x == upper c then 1 else 0
fold_width c (x ∷ y ∷ []) =
    if x == c || x == upper c then 1 else if c == b's' && x == 0xC5 && y == 0xBF then 2 else 0
fold_width c (x ∷ y ∷ z ∷ s) =
    if x == c || x == upper c
    then 1
    else if c == b's' && x == 0xC5 && y == 0xBF
    then 2
    else if c == b'k' && x == 0xE2 && y == 0x84 && z == 0xAA
    then 3
    else 0

abbrev pub is_digit : ℕ → Bool
is_digit c = leb b'0' c && leb c b'9'

-- RE2's `\s`, which leaves out the vertical tab.
abbrev pub is_re_space : ℕ → Bool
is_re_space c = c == 9 || c == 10 || c == 12 || c == 13 || c == 32

abbrev pub is_word : ℕ → Bool
is_word c = is_digit c || leb b'a' c && leb c b'z' || leb b'A' c && leb c b'Z' || c == b'_'

abbrev pub word_before : Option ℕ → Bool
word_before none = false
word_before (some c) = is_word c

abbrev pub word_after : Text → Bool
word_after [] = false
word_after (c ∷ s) = is_word c

abbrev at_boundary : Option ℕ → Text → Bool
at_boundary prev s = if word_before prev then not (word_after s) else word_after s

-- A match at the head of a text behind the byte `prev`: the captured bytes.
unfoldable pub match_at : List Piece → Option ℕ → Text → Option Text
unfolding fold_width
match_at [] prev s = some []
match_at (fold c ∷ ps) prev s = elim (fold_width c s == 0) [
  | true ↦ none
  | false ↦ match_at ps (some c) (drop (fold_width c s) s)
]
match_at (one p ∷ ps) prev [] = none
match_at (one p ∷ ps) prev (c ∷ s) = elim (p c) [ true ↦ match_at ps (some c) s | false ↦ none ]
match_at (capture p ∷ ps) prev [] = none
match_at (capture p ∷ ps) prev (c ∷ s) = elim (p c) [
  | true ↦ elim (match_at ps (some c) s) [ none ↦ none | some m ↦ some (c ∷ m) ]
  | false ↦ none
]
match_at (maybe p ∷ ps) prev [] = match_at ps prev []
match_at (maybe p ∷ ps) prev (c ∷ s) = elim (p c) [
  | true ↦ elim (match_at ps (some c) s) [ some m ↦ some m | none ↦ match_at ps prev (c ∷ s) ]
  | false ↦ match_at ps prev (c ∷ s)
]
match_at (star p ∷ ps) prev [] = match_at ps prev []
match_at (star p ∷ ps) prev (c ∷ s) = elim (p c) [
  | true ↦ elim (match_at (star p ∷ ps) (some c) s) [
    | some m ↦ some m
    | none ↦ match_at ps prev (c ∷ s)
  ]
  | false ↦ match_at ps prev (c ∷ s)
]
match_at (boundary ∷ ps) prev s = elim (at_boundary prev s) [
  | true ↦ match_at ps prev s
  | false ↦ none
]

-- The leftmost match.
unfoldable pub search_from : List Piece → Option ℕ → Text → Option Text
search_from ps prev [] = match_at ps prev []
search_from ps prev (c ∷ s) = elim (match_at ps prev (c ∷ s)) [
  | some m ↦ some m
  | none ↦ search_from ps (some c) s
]

-- `FindStringSubmatch`, of the one group.
abbrev pub find_submatch : List Piece → Text → Option Text
find_submatch ps s = search_from ps none s

abbrev is_some {ℓ} : {A : Type ℓ} → Option A → Bool
is_some none = false
is_some (some a) = true

-- `MatchString`
unfoldable pub match_string : List Piece → Text → Bool
unfolding match_at search_from
match_string ps s = is_some (find_submatch ps s)

-- The pieces of a word under `(?i)`, and of one that is matched as it stands.
abbrev pub word : String → List Piece
word s = map fold (codes s)

abbrev pub exact : String → List Piece
exact s = map (λ c. one (λ x. x == c)) (codes s)

-- A class given by its bytes, and `.`.
abbrev pub class_of : String → ℕ → Bool
class_of s c = any (λ x. x == c) (codes s)

abbrev pub dot : ℕ → Bool
dot c = not (c == 10)
