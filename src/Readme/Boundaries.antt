-- ===== src/Readme/Boundaries.antt =====
-- `markdownBoundaries` of src/index.mjs: one pass over the lines.
pub mod Fences
pub mod Cuts
use qq_index.Prelude.{
  ℕ, zero, suc, ◌+◌, Bool, true, false, Option, none, some, List, [], ◌∷◌, ◌++◌, ltb, if◌then◌else◌,
  length,
}
use qq_index.Readme.Text.{Text, split_lines}
use qq_index.Readme.Lines.{
  Fence, fence_delimiter, closes_fence, is_atx_heading, is_blank_line, strip_return,
}

-- The pass's variables.
pub record Scan : Type 0 where
  pub section : List ℕ
  pub block : List ℕ
  pub line : List ℕ
  pub offset : ℕ
  pub open_fence : Option Fence
  pub heading_count : ℕ

abbrev pub start : Scan
start = record {
  section = [];
  block = [];
  line = [];
  offset = 0;
  open_fence = none;
  heading_count = 0;
}

-- A later heading shows that a complete section stands before it.
pub scan_heading : Text → Scan → Scan
scan_heading content s =
    if is_atx_heading content
    then record s {
      heading_count = s.heading_count + 1;
      section = if ltb 1 (s.heading_count + 1) then s.section ++ (s.offset ∷ []) else s.section;
    }
    else s

-- A line outside a fence; `end` is the offset of what follows.
pub scan_open : Bool → Text → ℕ → Scan → Scan
scan_open complete content end s = elim (fence_delimiter content) [
  | some fence ↦ record s { open_fence = some fence }
  | none ↦
      if complete
      then record s {
        line = s.line ++ (end ∷ []);
        block = if is_blank_line content then s.block ++ (end ∷ []) else s.block;
      }
      else s
]

-- A line inside a fence.
pub scan_fenced : Bool → Text → ℕ → Fence → Scan → Scan
scan_fenced complete content end fence s =
    if closes_fence content fence
    then record s {
      open_fence = none;
      line = if complete then s.line ++ (end ∷ []) else s.line;
      block = if complete then s.block ++ (end ∷ []) else s.block;
    }
    else s

pub scan_content : Bool → Text → ℕ → Option Fence → Scan → Scan
unfolding scan_heading scan_open scan_fenced
scan_content complete content end none s = scan_open complete content end (scan_heading content s)
scan_content complete content end (some fence) s = scan_fenced complete content end fence s

-- One round of the loop. `complete` says that a line feed ends the line.
pub scan_line : Bool → Text → Scan → Scan
unfolding scan_content
scan_line complete raw s =
    let end = s.offset + (length raw + (if complete then 1 else 0)) in
    record (scan_content complete (strip_return raw) end s.open_fence s) { offset = end }

pub scan_lines : List Text → Scan → Scan
scan_lines [] s = s
scan_lines (l ∷ []) s = scan_line false l s
scan_lines (l ∷ m ∷ ls) s = scan_lines (m ∷ ls) (scan_line true l s)

unfoldable pub markdown_boundaries : Text → Scan
unfolding scan_lines scan_line split_lines
markdown_boundaries markdown = scan_lines (split_lines markdown) start
