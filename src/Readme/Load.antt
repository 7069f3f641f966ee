-- ===== src/Readme/Load.antt =====
-- `readUtf8Prefix` and `loadIndex` of src/index.mjs. The file is what the decoder hands over: a text for
-- each read, and what is left in the decoder at the end.
pub mod Reading
use qq_index.Prelude.{
  ℕ, ◌+◌, Bool, true, false, Option, none, some, List, [], ◌∷◌, ◌++◌, ltb, if◌then◌else◌, length,
  Outcome, ok, err, ◌>>=◌,
}
use qq_index.Readme.Text.{Text}
use qq_index.Readme.Projection.{IndexError, not_regular_file, not_inspected, project_index}

-- `MAX_INJECTED_INDEX_CODE_POINTS`
abbrev pub max_injected : ℕ
max_injected = 10000

pub record Decoded : Type 0 where
  pub reads : List Text
  pub rest : Text

pub record Prefix : Type 0 where
  pub text : Text
  pub over_limit : Bool

-- `append`: the code points so far, and whether the limit is passed.
append_points : ℕ → Text → Text → Text × Bool
append_points maximum points [] = (points, false)
append_points maximum points (c ∷ cs) =
    let rest = append_points maximum (points ++ (c ∷ [])) cs in
    if ltb maximum (length (points ++ (c ∷ []))) then (points ++ (c ∷ []), true) else rest

at_end : ℕ → Text → Prefix
at_end maximum points = record { text = points; over_limit = ltb maximum (length points) }

-- The loop over the reads; the end of the list stands for the read of no bytes.
read_points : ℕ → Text → List Text → Text → Prefix
unfolding append_points at_end
read_points maximum points [] rest = at_end maximum (append_points maximum points rest).0
read_points maximum points (d ∷ ds) rest =
    let (more, over) = append_points maximum points d in
    let later = read_points maximum more ds rest in
    if over then record { text = more; over_limit = true } else later

unfoldable pub read_utf8_prefix : Decoded → ℕ → Prefix
unfolding read_points
read_utf8_prefix file maximum = read_points maximum [] file.reads file.rest

-- What `lstat` finds at README.md: nothing, a regular file with what it holds, something else (a directory, a link),
-- or an error that does not say that there is nothing.
pub data Entry : Type 0 where
  absent other_kind inaccessible : Entry
  regular : Decoded → Entry

-- `inspectIndex`: the file, none where there is none.
unfoldable pub inspect_index : Entry → Outcome IndexError (Option Decoded)
inspect_index absent = ok none
inspect_index other_kind = err not_regular_file
inspect_index inaccessible = err not_inspected
inspect_index (regular file) = ok (some file)

abbrev pub load_text : Option Decoded → Outcome IndexError Text
load_text none = ok []
load_text (some file) =
    let loaded = read_utf8_prefix file max_injected in
    if loaded.over_limit then project_index loaded.text max_injected else ok loaded.text

unfoldable pub load_index : Entry → Outcome IndexError Text
unfolding inspect_index read_utf8_prefix
load_index entry = inspect_index entry >>= load_text
