-- ===== src/Dsh/Snippets/Bounds.antt =====
-- A snippet, and a title that is clipped, are within their bounds.
use qq_index.Prelude.{
  ℕ, zero, suc, ◌+◌, ◌-◌, ◌≤◌, ◌<◌, ◌≡◌, refl, sym, subst, ◌⊎◌, inl, inr, Bool, true, false, [],
  ◌∷◌, ◌++◌, arith, ltb, length, take, drop, Bool-cases, if◌then◌else◌,
}
use qq_index.Readme.Text.{Text}
use qq_index.Dsh.Snippets.{
  Window, units_of, bytes_of, total, units, bytes, prefix_units, prefix_bytes, last_index, ellipsis,
  max_snippet_code_units, max_snippet_bytes, fits, clip, is_short, snippet_window, centered_snippet,
}
use qq_index.Dsh.Snippets.Windows.{snippet_window-Good}

module _ (size : ℕ → ℕ) where
  total-append : (s t : Text) → total size (s ++ t) ≡ total size s + total size t
  unfolding total
  total-append [] t = omega arith
  total-append (c ∷ cs) t = omega (arith, total-append cs t)

  total-slice :
      (first count : ℕ) (t : Text)
      → total size (take first t) + total size (take count (drop first t))
        ≡ total size (take (first + count) t)
  unfolding total
  total-slice zero count t = let e : 0 + count ≡ count = omega arith in rw e (omega arith)
  total-slice (suc first) zero [] =
      let e : suc first + 0 ≡ suc first = omega arith in rw e (omega arith)
  total-slice (suc first) (suc count) [] =
      let e : suc first + suc count ≡ suc (first + suc count) = omega arith in rw e (omega arith)
  total-slice (suc first) count (c ∷ cs) =
      let e : suc first + count ≡ suc (first + count) = omega arith in
      rw e (omega (arith, total-slice first count cs))

  total-edge :
      (b : Bool) → total size (if b then ellipsis ∷ [] else []) ≡ (if b then size ellipsis else 0)
  unfolding total
  total-edge true = omega arith
  total-edge false = omega arith

  -- The size of what is returned for a window.
  total-clip :
      (t : Text) (w : Window)
      → w.left ≤ w.right
      → total size (clip t w)
        ≡ (if ltb 0 w.left then size ellipsis else 0)
          + (total size (take (w.right + 1) t)
              - total size (take w.left t)
              + (if ltb w.right (last_index t) then size ellipsis else 0))
  unfolding clip
  total-clip t w h =
      let front : Text = if ltb 0 w.left then ellipsis ∷ [] else [] in
      let middle : Text = take (w.right + 1 - w.left) (drop w.left t) in
      let back : Text = if ltb w.right (last_index t) then ellipsis ∷ [] else [] in
      let e : w.left + (w.right + 1 - w.left) ≡ w.right + 1 = omega arith in
      let slice : total size (take w.left t) + total size middle
          ≡ total size (take (w.right + 1) t) =
        subst (λ n. total size (take w.left t) + total size middle ≡ total size (take n t)) e
          (total-slice w.left (w.right + 1 - w.left) t) in
      omega (
        arith,
        slice,
        total-append front (middle ++ back),
        total-append middle back,
        total-edge (ltb 0 w.left),
        total-edge (ltb w.right (last_index t)),
      )

pub units-ellipsis : units_of ellipsis ≡ 1
unfolding units_of
units-ellipsis = refl

pub bytes-ellipsis : bytes_of ellipsis ≡ 3
unfolding bytes_of
bytes-ellipsis = refl

-- What fits is within the bounds of a snippet.
clip_bounds :
    (t : Text) (w : Window)
    → fits t w.left w.right ≡ true
    → w.left ≤ w.right
    → (units (clip t w) ≤ max_snippet_code_units) × (bytes (clip t w) ≤ max_snippet_bytes)
unfolding fits units bytes prefix_units prefix_bytes
clip_bounds t w f h = (
  ground (arith, total-clip units_of t w h, units-ellipsis),
  ground (arith, total-clip bytes_of t w h, bytes-ellipsis),
)

long_nonempty : (t : Text) → is_short t ≡ false → 0 < length t
unfolding is_short units bytes total
long_nonempty [] h = cc
long_nonempty (c ∷ cs) h = omega arith

-- What the code does with a text, short or long.
snippet_cases :
    (t : Text) (match_index literal_length : ℕ)
    → (is_short t ≡ true) × (centered_snippet t match_index literal_length ≡ t)
      ⊎ (is_short t ≡ false)
        × (centered_snippet t match_index literal_length
            ≡ clip t (snippet_window t match_index literal_length))
unfolding centered_snippet
snippet_cases t match_index literal_length = elim (Bool-cases (is_short t)) [
  | inl short ↦ inl (short, rw short refl)
  | inr long ↦ inr (long, rw long refl)
]

-- The window shows the code units from the match's first to its last.
abbrev pub Shows : Text → (match_index literal_length : ℕ) → Window → Type 0
Shows t match_index literal_length w =
    (prefix_units t w.left ≤ match_index)
    × (match_index + literal_length ≤ prefix_units t (w.right + 1))

-- Whatever the text and wherever the match is, a snippet has at most 320 code units and 1,280 bytes.
pub centered_snippet_bounds :
    (t : Text) (match_index literal_length : ℕ)
    → (units (centered_snippet t match_index literal_length) ≤ max_snippet_code_units)
      × (bytes (centered_snippet t match_index literal_length) ≤ max_snippet_bytes)
unfolding is_short
centered_snippet_bounds t match_index literal_length =
    let P : Text → Type 0 =
      λ s. (units s ≤ max_snippet_code_units) × (bytes s ≤ max_snippet_bytes) in
    elim (snippet_cases t match_index literal_length) [
      | inl (short, same) ↦ subst P (sym same) (ground arith, ground arith)
      | inr (long, same) ↦
          let (good, full, holds) =
            snippet_window-Good t match_index literal_length (long_nonempty t long) in
          subst P (sym same)
            (clip_bounds t (snippet_window t match_index literal_length) good.0 good.1)
    ]
