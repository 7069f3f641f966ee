-- ===== src/Readme/Tests.antt =====
-- Runs of src/index.mjs's parts on small inputs.
use qq_index.Prelude.{
  ◌≤◌, ◌<◌, ◌≡◌, ◌⊎◌, refl, false, none, some, [], ◌∷◌, ◌++◌, arith, length, take, ok,
}
use qq_index.Readme.Text.{Text, codes, is_blank}
use qq_index.Readme.Lines.{
  fence_delimiter, closes_fence, is_atx_heading, is_blank_line, strip_return,
}
use qq_index.Readme.Boundaries.{markdown_boundaries}
use qq_index.Readme.Projection.{truncation_marker, marker_budget, cutoff, project_index}
use qq_index.Readme.Projection.Bounds.{project_index_total}
use qq_index.Readme.Projection.Cut.{cutoff_useful}
use qq_index.Readme.Load.{max_injected, Decoded, regular, load_index}
use qq_index.Readme.Load.Reading.{contents, load_index_total}

-- A heading, a closed fence, a second heading and a line.
abbrev sample : Text
sample =
    codes "# a"
    ++ (10 ∷ codes "```"
        ++ (10 ∷ codes "# b" ++ (10 ∷ codes "```" ++ (10 ∷ codes "# c" ++ (10 ∷ codes "d")))))

sample_cut : cutoff sample (markdown_boundaries sample) ≡ some 16
unfolding cutoff markdown_boundaries is_blank is_atx_heading fence_delimiter closes_fence
    is_blank_line strip_return
sample_cut = refl

cutoff_useful_example :
    ((markdown_boundaries (take 16 sample)).open_fence ≡ none) × (is_blank (take 16 sample) ≡ false)
cutoff_useful_example = cutoff_useful sample 16 sample_cut

project_index_total_example :
    (projected : Text) × (project_index sample 300 ≡ ok projected)
    × (length projected ≤ 300)
    × ((length sample ≤ 300) × (projected ≡ sample)
        ⊎ (300 < length sample)
          × ((front : Text) × (projected ≡ front ++ (truncation_marker ++ (10 ∷ [])))))
unfolding marker_budget truncation_marker
project_index_total_example = project_index_total sample 300 (omega arith)

abbrev sample_file : Decoded
sample_file = record { reads = codes "# a" ∷ codes "b" ∷ []; rest = [] }

load_index_total_example :
    (loaded : Text) × (load_index (regular sample_file) ≡ ok loaded)
    × (length loaded ≤ max_injected)
    × ((length (contents sample_file) ≤ max_injected) × (loaded ≡ contents sample_file)
        ⊎ (max_injected < length (contents sample_file))
          × ((front : Text) × (loaded ≡ front ++ (truncation_marker ++ (10 ∷ [])))))
load_index_total_example = load_index_total sample_file
