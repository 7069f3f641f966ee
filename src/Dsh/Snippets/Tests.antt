-- ===== src/Dsh/Snippets/Tests.antt =====
-- Runs of the snippets and titles of src/session-index-dsh-source.mjs on small inputs.
use qq_index.Prelude.{
  ◌+◌, ℕ, zero, suc, ◌≤◌, ◌<◌, ◌≡◌, refl, ◌⊎◌, true, false, false, [], ◌∷◌, ◌++◌, arith,
}
use qq_index.Readme.Text.{Text, codes, trim_end}
use qq_index.Dsh.Snippets.{
  units, units_of, bytes, centered_snippet, max_snippet_bytes, max_snippet_code_units, ellipsis,
  units_of, bytes_of, prefix_clip_with_ellipsis, normalize_whitespace,
}
use qq_index.Dsh.Snippets.Bounds.{centered_snippet_bounds}
use qq_index.Dsh.Snippets.Spaces.{
  starts_with_space, ends_with_space, is_tidy, words_of, normalize_whitespace-Tidy,
}
use qq_index.Dsh.Snippets.Titles.{prefix_clip_bounds}

abbrev repeated : ℕ → Text
repeated zero = []
repeated (suc n) = 97 ∷ repeated n

-- A text of 403 points with `xyz` at 201.
abbrev long_text : Text
long_text = repeated 201 ++ (codes "xyz" ++ repeated 199)

centered_snippet_bounds_example :
    (units (centered_snippet long_text 201 3) ≤ max_snippet_code_units)
    × (bytes (centered_snippet long_text 201 3) ≤ max_snippet_bytes)
centered_snippet_bounds_example = centered_snippet_bounds long_text 201 3

abbrev spaced_text : Text
spaced_text = codes "  two \n\n words "

spaced_text_normalized : normalize_whitespace spaced_text ≡ codes "two words"
unfolding normalize_whitespace
spaced_text_normalized = refl

normalize_whitespace-Tidy_example :
    (starts_with_space (normalize_whitespace spaced_text) ≡ false)
    × (ends_with_space (normalize_whitespace spaced_text) ≡ false)
    × (is_tidy false (normalize_whitespace spaced_text) ≡ true)
    × (words_of (normalize_whitespace spaced_text) ≡ words_of spaced_text)
normalize_whitespace-Tidy_example = normalize_whitespace-Tidy spaced_text

title_clipped :
    prefix_clip_with_ellipsis (codes "a long title") 6 1024 ≡ codes "a lon" ++ (ellipsis ∷ [])
unfolding prefix_clip_with_ellipsis
title_clipped = refl

prefix_clip_bounds_example :
    let value = codes "a long title" in
    let clipped = prefix_clip_with_ellipsis value 6 1024 in
    (units clipped ≤ 6)
    × (bytes clipped ≤ 1024)
    × ((units value ≤ 6) × (bytes value ≤ 1024) × (clipped ≡ value)
        ⊎ ((6 < units value) ⊎ (1024 < bytes value))
          × (front : Text) × (c : ℕ) × (rest : Text) × (value ≡ front ++ (c ∷ rest))
          × (clipped ≡ trim_end front ++ (ellipsis ∷ []))
          × (units front + 1 ≤ 6)
          × (bytes front + 3 ≤ 1024)
          × ((6 < units front + units_of c + 1) ⊎ (1024 < bytes front + bytes_of c + 3)))
prefix_clip_bounds_example =
    prefix_clip_bounds (codes "a long title") 6 1024 (omega arith) (omega arith)
