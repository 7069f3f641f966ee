-- ===== src/Readme/Projection.antt =====
-- `projectIndex` of src/index.mjs, with the cut that it chooses and the fallback for an open fence.
pub mod Bounds
pub mod Cut
use qq_index.Prelude.{
  ℕ, suc, ◌+◌, ◌-◌, Bool, true, false, Option, none, some, List, [], ◌∷◌, ◌++◌, ltb, leb, ◌==◌,
  if◌then◌else◌, length, take, Outcome, ok, err, ◌>>=◌, ◌>>◌, require,
}
use qq_index.Readme.Text.{Text, codes, trim_end, is_blank}
use qq_index.Readme.Lines.{Fence}
use qq_index.Readme.Boundaries.{Scan, markdown_boundaries}

pub data IndexError : Type 0 where
  budget_below_marker projection_exceeded not_regular_file not_inspected : IndexError

-- `INDEX_TRUNCATION_MARKER`
unfoldable pub truncation_marker : Text
truncation_marker =
    codes
      "> **qq-index truncation:** This injected excerpt is incomplete. Read the full [README.md](README.md)."

-- `unicodeCodePointCount(`\n\n${INDEX_TRUNCATION_MARKER}\n`)`
unfoldable pub marker_budget : ℕ
marker_budget = length (10 ∷ 10 ∷ truncation_marker ++ (10 ∷ []))

last? : List ℕ → Option ℕ
last? [] = none
last? (x ∷ []) = some x
last? (x ∷ y ∷ ys) = last? (y ∷ ys)

pub latest_boundary : Text → List ℕ → Option ℕ
unfolding last?
latest_boundary markdown values = elim (last? values) [
  | none ↦ none
  | some boundary ↦ if is_blank (take boundary markdown) then none else some boundary
]

-- `a ?? b`
abbrev or_else : Option ℕ → Option ℕ → Option ℕ
or_else (some x) y = some x
or_else none y = y

unfoldable pub cutoff : Text → Scan → Option ℕ
unfolding latest_boundary
cutoff candidate s =
    or_else (latest_boundary candidate s.section)
      (or_else (latest_boundary candidate s.block) (latest_boundary candidate s.line))

-- The loop of `fencedBlockFallback`: what is pushed between the opening and the closing line.
fallback_lines : ℕ → ℕ → Bool → Text → Text
fallback_lines maximum used line_start [] = []
fallback_lines maximum used true (c ∷ cs) =
    if ltb maximum (used + 4)
    then []
    else if ltb maximum (used + 4 + 1)
    then codes "    "
    else codes "    " ++ (c ∷ fallback_lines maximum (used + 4 + 1) (c == 10) cs)
fallback_lines maximum used false (c ∷ cs) =
    if ltb maximum (used + 1) then [] else c ∷ fallback_lines maximum (used + 1) (c == 10) cs

pub fenced_block_fallback : Text → ℕ → Fence → Text
unfolding fallback_lines
fenced_block_fallback source maximum fence =
    let wrapper = if fence.character == 96 then 126 else 96 in
    let opening = wrapper ∷ wrapper ∷ wrapper ∷ codes "text" ++ (10 ∷ []) in
    let closing = 10 ∷ wrapper ∷ wrapper ∷ wrapper ∷ 10 ∷ [] in
    opening ++ (fallback_lines maximum (length opening + length closing) true source ++ closing)

append_marker : Text → Text
append_marker [] = truncation_marker ++ (10 ∷ [])
append_marker (c ∷ cs) = (c ∷ cs) ++ (10 ∷ 10 ∷ truncation_marker ++ (10 ∷ []))

pub append_truncation_marker : Text → Text
unfolding append_marker
append_truncation_marker body = append_marker (trim_end body)

choose_body : Text → ℕ → Option ℕ → Option Fence → Text
choose_body candidate body_budget (some boundary) fence = take boundary candidate
choose_body candidate body_budget none (some fence) =
    fenced_block_fallback candidate body_budget fence
choose_body candidate body_budget none none = candidate

pub body : Text → ℕ → Text
unfolding choose_body cutoff
body candidate body_budget =
    let s = markdown_boundaries candidate in
    choose_body candidate body_budget (cutoff candidate s) s.open_fence

-- The loop that retains one code point more than `maximum` at most finds whether the text is over it.
pub project_index : Text → ℕ → Outcome IndexError Text
project_index markdown maximum = if leb (length markdown) maximum then ok markdown else (do
  require (ltb marker_budget maximum) budget_below_marker
  let body_budget = maximum - marker_budget
  let candidate = take body_budget (take (maximum + 1) markdown)
  let projected = append_truncation_marker (body candidate body_budget)
  require (leb (length projected) maximum) projection_exceeded
  ok projected)
