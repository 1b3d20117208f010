-- ===== src/Strings/Paths.antt =====
-- Go's `filepath.Join` on Unix.
use elvis.Base.{
  Bool, false, ◌||◌, List, [], ◌∷◌, ◌++◌, Text, codes, text_eq, is_nil, ◌==◌, if◌then◌else◌,
}
use mathlib.Core.List.{reverse}

-- The components between slashes: `word` is the component so far, backwards.
unfoldable pub components_from : Text → Text → List Text
components_from word [] = reverse word ∷ []
components_from word (c ∷ s) =
    let behind = components_from [] s in
    let inside = components_from (c ∷ word) s in if c == b'/' then reverse word ∷ behind else inside

-- The path so far, backwards, after `..`.
unfoldable pub up : Bool → List Text → List Text
up rooted [] = if rooted then [] else codes ".." ∷ []
up rooted (top ∷ path) = if text_eq top (codes "..") then codes ".." ∷ top ∷ path else path

unfoldable pub cleaned : Bool → List Text → List Text → List Text
cleaned rooted path [] = path
cleaned rooted path (c ∷ cs) =
    let skipped = cleaned rooted path cs in
    let lifted = cleaned rooted (up rooted path) cs in
    let deeper = cleaned rooted (c ∷ path) cs in
    if is_nil c || text_eq c (codes ".")
    then skipped
    else if text_eq c (codes "..")
    then lifted
    else deeper

unfoldable pub with_slashes : List Text → Text
with_slashes [] = []
with_slashes (c ∷ []) = c
with_slashes (c ∷ d ∷ cs) = c ++ b'/' ∷ with_slashes (d ∷ cs)

abbrev is_rooted : Text → Bool
is_rooted [] = false
is_rooted (c ∷ s) = c == b'/'

-- `filepath.Clean`
unfoldable pub clean : Text → Text
clean path =
    let rooted = is_rooted path in
    let inner = with_slashes (reverse (cleaned rooted [] (components_from [] path))) in
    if rooted then b'/' ∷ inner else if is_nil inner then codes "." else inner

abbrev filled : List Text → List Text
filled [] = []
filled (c ∷ cs) = if is_nil c then filled cs else c ∷ filled cs

-- `filepath.Join`
unfoldable pub join_path : List Text → Text
join_path elements =
    if is_nil (with_slashes (filled elements)) then [] else clean (with_slashes (filled elements))
