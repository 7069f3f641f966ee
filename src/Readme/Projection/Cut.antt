-- ===== src/Readme/Projection/Cut.antt =====
-- The cut of a projection is a boundary of the text, and a useful one.
use qq_index.Prelude.{
  ℕ, ◌≡◌, false, Option, none, some, List, [], ◌∷◌, arith, take, All, Option-cases, inl, inr,
  if◌then◌else◌,
}
use qq_index.Readme.Text.{Text, is_blank}
use qq_index.Readme.Boundaries.{markdown_boundaries}
use qq_index.Readme.Boundaries.Cuts.{cuts_closed}
use qq_index.Readme.Projection.{last?, latest_boundary, or_else, cutoff}

or_else-cases :
    (x y : Option ℕ) (b : ℕ) {Q : Type 0}
    → or_else x y ≡ some b
    → (x ≡ some b → Q)
    → (y ≡ some b → Q)
    → Q
or_else-cases none y b e f g = g e
or_else-cases (some a) y b e f g = f e

module _ (P : ℕ → Type 0) where
  last?-All : (xs : List ℕ) (b : ℕ) → All P xs → last? xs ≡ some b → P b
  unfolding last?
  last?-All [] b h e = cc
  last?-All (x ∷ []) b h e = let same : x ≡ b = cc in rw (← same) h.0
  last?-All (x ∷ y ∷ ys) b h e = last?-All (y ∷ ys) b h.1 e

  latest-All :
      (t : Text) (xs : List ℕ) (b : ℕ)
      → All P xs
      → latest_boundary t xs ≡ some b
      → P b × (is_blank (take b t) ≡ false)
  unfolding latest_boundary
  latest-All t xs b h e = elim (Option-cases (last? xs)) [
    | inl empty ↦ cc (rw (empty, latest_boundary) at e)
    | inr (x, found) ↦
        let chosen : (if is_blank (take x t) then none else some x) ≡ some b =
          rw (found, latest_boundary) at e in
        let same : x ≡ b = ground arith in
        (rw (← same) (last?-All xs x h found), rw (← same) (ground arith))
  ]

-- If a boundary of the text is chosen to cut it at, the part before it is not blank, and no fence is open at its end.
pub cutoff_useful :
    (candidate : Text) (b : ℕ)
    → cutoff candidate (markdown_boundaries candidate) ≡ some b
    → ((markdown_boundaries (take b candidate)).open_fence ≡ none)
      × (is_blank (take b candidate) ≡ false)
unfolding cutoff
cutoff_useful candidate b e =
    let s = markdown_boundaries candidate in
    let all = cuts_closed candidate in
    let P : ℕ → Type 0 = λ b. (markdown_boundaries (take b candidate)).open_fence ≡ none in
    let found = λ (xs : List ℕ) (h : All P xs). latest-All P candidate xs b h in
    or_else-cases _ _ b e (found s.section all.sections)
      (λ e'. or_else-cases _ _ b e' (found s.block all.blocks) (found s.line all.lines))
