-- ===== src/Readme/Boundaries/Cuts.antt =====
-- A text that is cut at one of its boundaries ends outside every fence.
use mathlib.Core.List.{append_assoc, append-nil}
use native.Mathlib.Nat.{zero-add, suc-add}
use qq_index.Prelude.{
  ℕ, ◌+◌, ◌≡◌, ◌≢◌, refl, ap, ◌∙◌, inl, inr, true, false, none, List, [], ◌∷◌, ◌++◌, arith, ◌==◌,
  length, take, All-map, Bool-cases,
}
use qq_index.Readme.Text.{Text, split_lines, cons_first}
use qq_index.Readme.Lines.{strip_return, is_atx_heading, fence_delimiter}
use qq_index.Readme.Boundaries.{
  Scan, start, scan_heading, scan_open, scan_content, scan_line, markdown_boundaries,
}
use qq_index.Readme.Boundaries.Fences.{
  feed, size, IsSafe, IsSafe-more, IsSafe-here, feed-append, size-append, scan_lines-feed,
  AllBoundaries, content-All,
}

-- The state after the complete lines `ls`.
record Reached (ls : List Text) (s : Scan) : Type 0 where
  state : feed ls start ≡ s
  offset : s.offset ≡ size ls
  boundaries : AllBoundaries (IsSafe ls) s

AllBoundaries-map :
    {P Q : ℕ → Type 0} (f : (b : ℕ) → P b → Q b) (s : Scan) → AllBoundaries P s → AllBoundaries Q s
AllBoundaries-map f s v = record {
  sections = All-map f s.section v.sections;
  blocks = All-map f s.block v.blocks;
  lines = All-map f s.line v.lines;
}

here-IsSafe : (ls : List Text) (s : Scan) → Reached ls s → s.open_fence ≡ none → IsSafe ls s.offset
here-IsSafe ls s v h = rw (v.offset) (IsSafe-here ls (rw (v.state) h))

Reached-line :
    (ls : List Text) (l : Text) (s : Scan)
    → Reached ls s
    → Reached (ls ++ (l ∷ [])) (scan_line true l s)
unfolding scan_line feed size
Reached-line ls l s v =
    let state : feed (ls ++ (l ∷ [])) start ≡ scan_line true l s =
      feed-append ls (l ∷ []) start ∙ ap (scan_line true l) v.state in
    let offset : s.offset + (length l + 1) ≡ size (ls ++ (l ∷ [])) =
      omega (arith, v.offset, size-append ls (l ∷ [])) in
    let content =
      content-All (IsSafe (ls ++ (l ∷ []))) true (strip_return l) (s.offset + (length l + 1))
        s.open_fence s (λ h. IsSafe-more ls (l ∷ []) s.offset (here-IsSafe ls s v h))
        (λ h _. rw offset (IsSafe-here (ls ++ (l ∷ [])) (rw state h))) refl
        (AllBoundaries-map (IsSafe-more ls (l ∷ [])) s v.boundaries) in
    record {
      state = state;
      offset = offset;
      boundaries = record {
        sections = content.sections;
        blocks = content.blocks;
        lines = content.lines;
      };
    }

Reached-start : Reached [] start
unfolding feed size
Reached-start = record {
  state = refl;
  offset = refl;
  boundaries = record { sections = tt; blocks = tt; lines = tt };
}

Reached-feed : (ls ms : List Text) (s : Scan) → Reached ls s → Reached (ls ++ ms) (feed ms s)
unfolding feed
Reached-feed ls [] s v = rw (append-nil ls) v
Reached-feed ls (m ∷ ms) s v =
    rw (← append_assoc ls (m ∷ []) ms)
      (Reached-feed (ls ++ (m ∷ [])) ms (scan_line true m s) (Reached-line ls m s v))

-- the last line, which no line feed ends, adds a section at most
last-AllBoundaries :
    (ls : List Text) (l : Text) (s : Scan)
    → Reached ls s
    → AllBoundaries (IsSafe ls) (scan_line false l s)
unfolding scan_line
last-AllBoundaries ls l s v =
    let content =
      content-All (IsSafe ls) false (strip_return l) (s.offset + (length l + 0)) s.open_fence s
        (here-IsSafe ls s v) (λ _ e. cc) refl v.boundaries in
    record { sections = content.sections; blocks = content.blocks; lines = content.lines }

cons_first-ne-nil : (c : ℕ) (ls : List Text) → cons_first c ls ≢ []
cons_first-ne-nil c [] e = cc
cons_first-ne-nil c (l ∷ ls) e = cc

split_lines-ne-nil : (t : Text) → split_lines t ≢ []
unfolding split_lines
split_lines-ne-nil [] e = cc
split_lines-ne-nil (c ∷ cs) e = ground (arith, cons_first-ne-nil c (split_lines cs))

cons_first-eq-cons :
    (c : ℕ) (ls : List Text) (l : Text) (rest : List Text)
    → ls ≢ []
    → cons_first c ls ≡ l ∷ rest
    → (m : Text) × (l ≡ c ∷ m) × (ls ≡ m ∷ rest)
cons_first-eq-cons c [] l rest h e = absurd (h refl)
cons_first-eq-cons c (m ∷ ls) l rest h e = (m, cc, cc)

append-eq-nil : (front back : List Text) → front ++ back ≡ [] → back ≡ []
append-eq-nil [] back e = e
append-eq-nil (l ∷ front) back e = cc

take-split_lines :
    (t : Text) (front back : List Text)
    → split_lines t ≡ front ++ back
    → back ≢ []
    → split_lines (take (size front) t) ≡ front ++ ([] ∷ [])
unfolding split_lines size
take-split_lines t [] back e h = refl
take-split_lines [] (l ∷ front) back e h = absurd (h (append-eq-nil front back (cc)))
take-split_lines (c ∷ cs) (l ∷ front) back e h = elim (Bool-cases (c == 10)) [
  | inl feed ↦
      let e' : [] ∷ split_lines cs ≡ l ∷ (front ++ back) = rw feed at e in
      let empty : l ≡ [] = cc in
      let rest : split_lines cs ≡ front ++ back = cc in
      rw (feed, empty, zero-add (size front))
        (ap (λ ls. [] ∷ ls) (take-split_lines cs front back rest h))
  | inr other ↦
      let e' : cons_first c (split_lines cs) ≡ l ∷ (front ++ back) = rw other at e in
      let (m, el, es) =
        cons_first-eq-cons c (split_lines cs) l (front ++ back) (split_lines-ne-nil cs) e' in
      rw (other, el, suc-add (length m) (size front))
        (ap (cons_first c) (take-split_lines cs (m ∷ front) back es h))
]

snoc-cases :
    (l : Text) (ls : List Text)
    → (front : List Text) × (last : Text) × (l ∷ ls ≡ front ++ (last ∷ []))
snoc-cases l [] = ([], l, refl)
snoc-cases l (m ∷ ls) =
    let (front, last, e) = snoc-cases m ls in (l ∷ front, last, ap (λ ms. l ∷ ms) e)

lines_end :
    (t : Text) → (front : List Text) × (last : Text) × (split_lines t ≡ front ++ (last ∷ []))
lines_end t = go (split_lines t) (split_lines-ne-nil t)
  where
    go :
        (ls : List Text)
        → ls ≢ []
        → (front : List Text) × (last : Text) × (ls ≡ front ++ (last ∷ []))
    go [] h = absurd (h refl)
    go (l ∷ ls) h = snoc-cases l ls

-- an empty last line opens no fence
open_fence-empty_line : (s : Scan) → s.open_fence ≡ none → (scan_line false [] s).open_fence ≡ none
unfolding scan_line scan_content scan_open scan_heading strip_return is_atx_heading fence_delimiter
open_fence-empty_line s h = ground arith

cut_closed :
    (t : Text) (ls : List Text) (last : Text) (b : ℕ)
    → split_lines t ≡ ls ++ (last ∷ [])
    → IsSafe ls b
    → (markdown_boundaries (take b t)).open_fence ≡ none
unfolding markdown_boundaries
cut_closed t ls last b e v =
    let whole : split_lines t ≡ v.front ++ (v.back ++ (last ∷ [])) =
      e ∙ ap (λ ms. ms ++ (last ∷ [])) v.split ∙ append_assoc v.front v.back (last ∷ []) in
    let some_line : v.back ++ (last ∷ []) ≢ [] = λ h. cc (append-eq-nil v.back (last ∷ []) h) in
    rw
      (
        v.place,
        take-split_lines t v.front (v.back ++ (last ∷ [])) whole some_line,
        scan_lines-feed v.front [] start,
      )
      (open_fence-empty_line (feed v.front start) v.closed)

-- Cut at any boundary that the pass finds, a text leaves no fence open.
pub cuts_closed :
    (t : Text)
    → AllBoundaries
        (λ b. (markdown_boundaries (take b t)).open_fence ≡ none)
        (markdown_boundaries t)
cuts_closed t =
    let (ls, last, e) = lines_end t in
    AllBoundaries-map (λ b. cut_closed t ls last b e) (markdown_boundaries t)
      (unfold markdown_boundaries in
        rw (e, scan_lines-feed ls last start)
          (last-AllBoundaries ls last (feed ls start) (Reached-feed [] ls start Reached-start)))
