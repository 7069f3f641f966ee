-- ===== src/Readme/Boundaries/Fences.antt =====
-- No boundary lies inside a fence.
use mathlib.Core.List.{append_assoc, append-nil}
use qq_index.Prelude.{
  ℕ, suc, ◌+◌, ◌≡◌, refl, sym, inl, inr, Bool, true, false, Option, none, some, List, [], ◌∷◌, ◌++◌,
  arith, ltb, length, All, All-append, Bool-cases, Option-cases, if◌then◌else◌,
}
use qq_index.Readme.Text.{Text}
use qq_index.Readme.Lines.{Fence, fence_delimiter, is_atx_heading, closes_fence, is_blank_line}
use qq_index.Readme.Boundaries.{
  Scan, start, scan_heading, scan_open, scan_fenced, scan_content, scan_line, scan_lines,
}

-- The pass over lines that a line feed ends.
unfoldable pub feed : List Text → Scan → Scan
feed [] s = s
feed (l ∷ ls) s = feed ls (scan_line true l s)

unfoldable pub size : List Text → ℕ
size [] = 0
size (l ∷ ls) = suc (length l + size ls)

-- A boundary after some of the lines, where no fence is open.
pub record IsSafe (ls : List Text) (b : ℕ) : Type 0 where
  pub front : List Text
  pub back : List Text
  pub split : ls ≡ front ++ back
  pub place : b ≡ size front
  pub closed : (feed front start).open_fence ≡ none

pub IsSafe-more : (ls ms : List Text) (b : ℕ) → IsSafe ls b → IsSafe (ls ++ ms) b
IsSafe-more ls ms b v = record {
  front = v.front;
  back = v.back ++ ms;
  split = rw (v.split) (append_assoc v.front v.back ms);
  place = v.place;
  closed = v.closed;
}

pub IsSafe-here : (ls : List Text) → (feed ls start).open_fence ≡ none → IsSafe ls (size ls)
IsSafe-here ls h = record {
  front = ls;
  back = [];
  split = sym (append-nil ls);
  place = refl;
  closed = h;
}

pub feed-append : (ls ms : List Text) (s : Scan) → feed (ls ++ ms) s ≡ feed ms (feed ls s)
unfolding feed
feed-append [] ms s = refl
feed-append (l ∷ ls) ms s = feed-append ls ms (scan_line true l s)

pub size-append : (ls ms : List Text) → size (ls ++ ms) ≡ size ls + size ms
unfolding size
size-append [] ms = omega arith
size-append (l ∷ ls) ms = omega (arith, size-append ls ms)

pub scan_lines-feed :
    (ls : List Text) (l : Text) (s : Scan)
    → scan_lines (ls ++ (l ∷ [])) s ≡ scan_line false l (feed ls s)
unfolding scan_lines feed
scan_lines-feed [] l s = refl
scan_lines-feed (k ∷ []) l s = refl
scan_lines-feed (k ∷ m ∷ ls) l s = scan_lines-feed (m ∷ ls) l (scan_line true k s)

-- What holds of every boundary that the pass has found.
pub record AllBoundaries (P : ℕ → Type 0) (s : Scan) : Type 0 where
  pub sections : All P s.section
  pub blocks : All P s.block
  pub lines : All P s.line

module _ (P : ℕ → Type 0) where
  snoc : (xs : List ℕ) (b : ℕ) → All P xs → P b → All P (xs ++ (b ∷ []))
  snoc xs b h k = All-append P xs (b ∷ []) h (k, tt)

  snoc_if :
      (t : Bool) (xs : List ℕ) (b : ℕ)
      → All P xs
      → (t ≡ true → P b)
      → All P (if t then xs ++ (b ∷ []) else xs)
  snoc_if true xs b h k = snoc xs b h (k refl)
  snoc_if false xs b h k = h

  heading-All :
      (content : Text) (s : Scan)
      → P s.offset
      → AllBoundaries P s
      → AllBoundaries P (scan_heading content s)
  unfolding scan_heading
  heading-All content s h v = elim (Bool-cases (is_atx_heading content)) [
    | inl heading ↦ rw heading (record {
      sections = snoc_if (ltb 1 (s.heading_count + 1)) s.section s.offset v.sections (λ _. h);
      blocks = v.blocks;
      lines = v.lines;
    })
    | inr text ↦ rw text v
  ]

  open-All :
      (complete : Bool) (content : Text) (end : ℕ) (s : Scan)
      → (fence_delimiter content ≡ none → complete ≡ true → P end)
      → AllBoundaries P s
      → AllBoundaries P (scan_open complete content end s)
  unfolding scan_open
  open-All false content end s h v = elim (Option-cases (fence_delimiter content)) [
    | inl plain ↦ rw (plain, scan_open) v
    | inr (fence, opening) ↦
        rw (opening, scan_open)
          (record { sections = v.sections; blocks = v.blocks; lines = v.lines })
  ]
  open-All true content end s h v = elim (Option-cases (fence_delimiter content)) [
    | inl plain ↦
        rw (plain, scan_open)
          (record {
            sections = v.sections;
            blocks = snoc_if (is_blank_line content) s.block end v.blocks (λ _. h plain refl);
            lines = snoc s.line end v.lines (h plain refl);
          })
    | inr (fence, opening) ↦
        rw (opening, scan_open)
          (record { sections = v.sections; blocks = v.blocks; lines = v.lines })
  ]

  fenced-All :
      (complete : Bool) (content : Text) (end : ℕ) (fence : Fence) (s : Scan)
      → (closes_fence content fence ≡ true → complete ≡ true → P end)
      → AllBoundaries P s
      → AllBoundaries P (scan_fenced complete content end fence s)
  unfolding scan_fenced
  fenced-All complete content end fence s h v = elim (Bool-cases (closes_fence content fence)) [
    | inl closing ↦ rw closing (record {
      sections = v.sections;
      blocks = snoc_if complete s.block end v.blocks (h closing);
      lines = snoc_if complete s.line end v.lines (h closing);
    })
    | inr inside ↦ rw inside v
  ]

  -- One round: `here` is for the boundary before the line, `there` for the one behind it.
  pub content-All :
      (complete : Bool) (content : Text) (end : ℕ) (fence : Option Fence) (s : Scan)
      → (fence ≡ none → P s.offset)
      → ((scan_content complete content end fence s).open_fence ≡ none → complete ≡ true → P end)
      → s.open_fence ≡ fence
      → AllBoundaries P s
      → AllBoundaries P (scan_content complete content end fence s)
  unfolding scan_content
  content-All complete content end none s here there e v =
      open-All complete content end (scan_heading content s)
        (λ plain. there (unfold scan_open scan_heading in ground arith))
        (heading-All content s (here refl) v)
  content-All complete content end (some fence) s here there e v =
      fenced-All complete content end fence s
        (λ closing. there (unfold scan_fenced in ground arith)) v
