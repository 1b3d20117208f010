-- ===== src/Tools/Edit/Examples.antt =====
-- The edits of pkg/tools/edit.go on concrete texts.
use elvis.Base.{ℕ, ◌≡◌, refl, ◌++◌, true, Option, none, some, inl, inr, ◌⊎◌, Text, codes, is_nil}
use elvis.Providers.Extraction.{index}
use elvis.Tools.Edit.{
  not_found, ambiguous, io_error, FileSystem, replace_edit_content, edit_file, append_file, count,
  count_from, replace_first,
}
use elvis.Tools.Edit.Replaced.{replace_edit_content-replaced}
use elvis.Strings.{contains}

-- One file, which is there or not.
abbrev one_file : FileSystem (Option Text) ℕ
one_file = record {
  read_file = λ path f. elim f as (λ _. Text ⊎ ℕ) [ none ↦ inr 2 | some s ↦ inl s ];
  write_file = λ path s f. (some s, none);
  is_not_exist = λ e. true;
}

edited :
    (edit_file one_file (codes "a") (codes "cat") (codes "dog") (some (codes "a cat."))).0
    ≡ some (codes "a dog.")
unfolding edit_file replace_edit_content contains count count_from index replace_first
edited = refl

twice :
    edit_file one_file (codes "a") (codes "cat") (codes "dog") (some (codes "cat cat"))
    ≡ (some (codes "cat cat"), some (ambiguous 2))
unfolding edit_file replace_edit_content contains count count_from index
twice = refl

missing :
    (edit_file one_file (codes "a") (codes "cow") (codes "dog") (some (codes "a cat."))).1
    ≡ some not_found
unfolding edit_file replace_edit_content contains
missing = refl

no_file : (edit_file one_file (codes "a") (codes "cow") (codes "dog") none).1 ≡ some (io_error 2)
unfolding edit_file
no_file = refl

appended : (append_file one_file (codes "a") (codes "!") none).0 ≡ some (codes "!")
unfolding append_file
appended = refl

-- Occurrences that overlap are counted once.
overlap : replace_edit_content {E = ℕ} (codes "aaa") (codes "aa") (codes "b") ≡ inl (codes "ba")
unfolding replace_edit_content contains count count_from index replace_first
overlap = refl

replaces :
    replace_edit_content {E = ℕ} (codes "a cat.") (codes "cat") (codes "dog") ≡ inl (codes "a dog.")
unfolding replace_edit_content contains count count_from index replace_first
replaces = refl

replace_edit_content-replaced_example :
    (before : Text) × (after : Text) × (codes "a cat." ≡ before ++ (codes "cat" ++ after))
    × (codes "a dog." ≡ before ++ (codes "dog" ++ after))
    × ((is_nil (codes "cat") ≡ true) ⊎ (index after (codes "cat") ≡ none))
replace_edit_content-replaced_example =
    replace_edit_content-replaced (codes "a cat.") (codes "cat") (codes "dog") (codes "a dog.")
      replaces
