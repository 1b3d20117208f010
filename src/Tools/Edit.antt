-- ===== src/Tools/Edit.antt =====
-- pkg/tools/edit.go: the replacement in a file of one text by another, and the appending to it. A file
-- system is what it answers to the read and the write of a path, with `E` for its errors.
pub mod Replaced
mod Examples
use elvis.Base.{
  ℕ, zero, suc, ◌+◌, Bool, true, false, not, List, [], ◌∷◌, ◌++◌, Option, none, some, ◌⊎◌, inl, inr,
  Text, length, take, drop, is_nil, ltb, if◌then◌else◌,
}
use elvis.Strings.{contains}
use elvis.Providers.Extraction.{index}
use elvis.Agent.Compress.{rune_count}

-- `strings.Count(s, p)` for a `p` that is not empty. The fuel is the length of the text.
unfoldable pub count_from : ℕ → Text → Text → ℕ
count_from zero s p = 0
count_from (suc fuel) s p = elim (index s p) [
  | none ↦ 0
  | some i ↦ suc (count_from fuel (drop (i + length p) s) p)
]

-- `strings.Count(s, p)`
unfoldable pub count : Text → Text → ℕ
count s p = if is_nil p then suc (rune_count s) else count_from (length s) s p

-- `strings.Replace(s, p, q, 1)`
unfoldable pub replace_first : Text → Text → Text → Text
replace_first s p q = elim (index s p) [
  | none ↦ s
  | some i ↦ take i s ++ q ++ drop (i + length p) s
]

pub data EditError (E : Type 0) : Type 0 where
  not_found : EditError E
  ambiguous : ℕ → EditError E
  io_error : E → EditError E

unfoldable pub replace_edit_content : {E : Type 0} → Text → Text → Text → Text ⊎ EditError E
replace_edit_content content old_text new_text =
    if not (contains content old_text)
    then inr not_found
    else if ltb 1 (count content old_text)
    then inr (ambiguous (count content old_text))
    else inl (replace_first content old_text new_text)

-- `F` are the states of the file system; a read is by its path.
pub record FileSystem (F E : Type 0) : Type 0 where
  pub read_file : Text → F → Text ⊎ E
  pub write_file : Text → Text → F → F × Option E
  pub is_not_exist : E → Bool

module _ {F E : Type 0} (sys_fs : FileSystem F E) where
  abbrev pub written : F × Option E → F × Option (EditError E)
  written (f, none) = (f, none)
  written (f, some e) = (f, some (io_error e))

  unfoldable pub edit_file : Text → Text → Text → F → F × Option (EditError E)
  edit_file path old_text new_text f = elim (sys_fs.read_file path f) [
    | inr e ↦ (f, some (io_error e))
    | inl content ↦ elim (replace_edit_content content old_text new_text) [
      | inr e ↦ (f, some e)
      | inl new_content ↦ written (sys_fs.write_file path new_content f)
    ]
  ]

  unfoldable pub append_file : Text → Text → F → F × Option (EditError E)
  append_file path append_content f = elim (sys_fs.read_file path f) [
    | inl content ↦ written (sys_fs.write_file path (content ++ append_content) f)
    | inr e ↦
        if sys_fs.is_not_exist e
        then written (sys_fs.write_file path append_content f)
        else (f, some (io_error e))
  ]
