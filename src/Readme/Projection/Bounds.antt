-- ===== src/Readme/Projection/Bounds.antt =====
-- The projection always succeeds within its budget.
use mathlib.Core.List.{append_assoc}
use qq_index.Prelude.{
  ℕ, ◌+◌, ◌-◌, ◌≤◌, ◌<◌, ◌≡◌, refl, sym, ◌⊎◌, inl, inr, Bool, true, false, Option, none, some, [],
  ◌∷◌, ◌++◌, arith, leb, ◌==◌, length, length-append, length-take, take, ok, Bool-cases,
  if◌then◌else◌,
}
use qq_index.Readme.Text.{Text, trim_end, length-trim_end}
use qq_index.Readme.Lines.{Fence}
use qq_index.Readme.Projection.{
  truncation_marker, marker_budget, fallback_lines, fenced_block_fallback, append_marker,
  append_truncation_marker, choose_body, body, project_index,
}

length-fallback_lines :
    (maximum used : ℕ) (line_start : Bool) (source : Text)
    → used ≤ maximum
    → used + length (fallback_lines maximum used line_start source) ≤ maximum
unfolding fallback_lines
length-fallback_lines maximum used line_start [] h = omega arith
length-fallback_lines maximum used true (c ∷ cs) h =
    ground (arith, length-fallback_lines maximum (used + 4 + 1) (c == 10) cs)
length-fallback_lines maximum used false (c ∷ cs) h =
    ground (arith, length-fallback_lines maximum (used + 1) (c == 10) cs)

length-fenced_block_fallback :
    (source : Text) (maximum : ℕ) (fence : Fence)
    → 13 ≤ maximum
    → length (fenced_block_fallback source maximum fence) ≤ maximum
unfolding fenced_block_fallback
length-fenced_block_fallback source maximum fence h =
    let wrapper : ℕ = if fence.character == 96 then 126 else 96 in
    let inner = fallback_lines maximum 13 true source in
    omega (
      arith,
      length-append inner (10 ∷ wrapper ∷ wrapper ∷ wrapper ∷ 10 ∷ []),
      length-fallback_lines maximum 13 true source,
    )

length-choose_body :
    (candidate : Text) (budget : ℕ) (cut : Option ℕ) (fence : Option Fence)
    → 13 ≤ budget
    → length candidate ≤ budget
    → length (choose_body candidate budget cut fence) ≤ budget
unfolding choose_body
length-choose_body candidate budget (some b) fence h k = omega (arith, length-take b candidate)
length-choose_body candidate budget none (some f) h k =
    length-fenced_block_fallback candidate budget f h
length-choose_body candidate budget none none h k = k

length-body :
    (candidate : Text) (budget : ℕ)
    → 13 ≤ budget
    → length candidate ≤ budget
    → length (body candidate budget) ≤ budget
unfolding body
length-body candidate budget h k = length-choose_body candidate budget _ _ h k

length-append_marker : (t : Text) → length (append_marker t) ≤ length t + marker_budget
unfolding append_marker marker_budget
length-append_marker [] = omega arith
length-append_marker (c ∷ cs) =
    omega (arith, length-append cs (10 ∷ 10 ∷ truncation_marker ++ (10 ∷ [])))

marker_last :
    (t : Text) → (front : Text) × (append_marker t ≡ front ++ (truncation_marker ++ (10 ∷ [])))
unfolding append_marker
marker_last [] = ([], refl)
marker_last (c ∷ cs) = (
  (c ∷ cs) ++ (10 ∷ 10 ∷ []),
  sym (append_assoc (c ∷ cs) (10 ∷ 10 ∷ []) (truncation_marker ++ (10 ∷ []))),
)

-- With room for the marker and for the two lines of a fence, the projection succeeds. A text within the
-- budget is returned as it is; of a longer one the result is within the budget and ends with the
-- marker.
pub project_index_total :
    (markdown : Text) (maximum : ℕ)
    → marker_budget + 13 ≤ maximum
    → (projected : Text) × (project_index markdown maximum ≡ ok projected)
      × (length projected ≤ maximum)
      × ((length markdown ≤ maximum) × (projected ≡ markdown)
          ⊎ (maximum < length markdown)
            × ((front : Text) × (projected ≡ front ++ (truncation_marker ++ (10 ∷ [])))))
unfolding project_index append_truncation_marker
project_index_total markdown maximum room = elim (Bool-cases (leb (length markdown) maximum)) [
  | inl short ↦ (markdown, rw short, ground arith, inl (ground arith, refl))
  | inr long ↦
      let budget = maximum - marker_budget in
      let candidate = take budget (take (maximum + 1) markdown) in
      let chosen : Text = body candidate budget in
      let fits : length (append_marker (trim_end chosen)) ≤ maximum = omega (
        arith,
        length-append_marker (trim_end chosen),
        length-trim_end chosen,
        length-body candidate budget (omega arith)
            (omega (arith, length-take budget (take (maximum + 1) markdown))),
      ) in
      (
        append_marker (trim_end chosen),
        rw long (ground arith),
        fits,
        inr (ground arith, marker_last (trim_end chosen)),
      )
]
