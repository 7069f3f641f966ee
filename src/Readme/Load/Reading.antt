-- ===== src/Readme/Load/Reading.antt =====
-- What is read of the file, and what is loaded.
use mathlib.Core.List.{append_assoc, append-nil}
use qq_index.Prelude.{
  ℕ, zero, suc, ◌+◌, ◌≤◌, ◌<◌, ◌≡◌, refl, sym, ap, ◌∙◌, ◌⊎◌, inl, inr, List, [], ◌∷◌, ◌++◌, flatten,
  arith, ltb, lt→ltb, ltb→lt, ltb→le, length, length-append, length-take, take, ok, Bool-cases,
}
use qq_index.Readme.Text.{Text}
use qq_index.Readme.Projection.{truncation_marker, marker_budget}
use qq_index.Readme.Projection.Bounds.{project_index_total}
use qq_index.Readme.Load.{
  max_injected, Decoded, append_points, at_end, read_points, read_utf8_prefix, regular,
  inspect_index, load_index,
}

abbrev pub contents : Decoded → Text
contents file = flatten file.reads ++ file.rest

take_all : (n : ℕ) (t : Text) → length t ≤ n → take n t ≡ t
take_all zero [] h = refl
take_all zero (c ∷ cs) h = absurd (omega arith)
take_all (suc n) [] h = refl
take_all (suc n) (c ∷ cs) h = ap (λ t. c ∷ t) (take_all n cs (omega arith))

take-append : (n : ℕ) (s t : Text) → n ≤ length s → take n (s ++ t) ≡ take n s
take-append zero s t h = refl
take-append (suc n) [] t h = absurd (omega arith)
take-append (suc n) (c ∷ s) t h = ap (λ u. c ∷ u) (take-append n s t (omega arith))

-- Within the limit all is taken; beyond it, one code point more than the limit.
append_points_lem :
    (maximum : ℕ) (points more : Text)
    → length points ≤ maximum
    → append_points maximum points more
      ≡ (take (maximum + 1) (points ++ more), ltb maximum (length (points ++ more)))
unfolding append_points
append_points_lem maximum points [] h =
    rw (append-nil points, take_all (maximum + 1) points (omega arith)) (ground arith)
append_points_lem maximum points (c ∷ cs) h =
    let whole : points ++ (c ∷ cs) ≡ (points ++ (c ∷ [])) ++ cs =
      sym (append_assoc points (c ∷ []) cs) in
    let size = length-append points (c ∷ []) in
    let total = length-append (points ++ (c ∷ [])) cs in
    elim (Bool-cases (ltb maximum (length (points ++ (c ∷ []))))) [
      | inl over ↦ rw (
        over,
        whole,
        take-append (maximum + 1) (points ++ (c ∷ [])) cs (ground arith),
        take_all (maximum + 1) (points ++ (c ∷ [])) (ground arith),
        lt→ltb maximum (length ((points ++ (c ∷ [])) ++ cs)) (ground arith),
      )
      | inr more ↦
          rw (more, whole) (append_points_lem maximum (points ++ (c ∷ [])) cs (ground arith))
    ]

read_points_lem :
    (maximum : ℕ) (points : Text) (ds : List Text) (rest : Text)
    → length points ≤ maximum
    → read_points maximum points ds rest ≡ record {
      text = take (maximum + 1) (points ++ (flatten ds ++ rest));
      over_limit = ltb maximum (length (points ++ (flatten ds ++ rest)));
    }
unfolding read_points flatten at_end
read_points_lem maximum points [] rest h =
    rw (append_points_lem maximum points rest h)
      (ground (arith, length-take (maximum + 1) (points ++ rest)))
read_points_lem maximum points (d ∷ ds) rest h =
    let tail = flatten ds ++ rest in
    let whole : points ++ (flatten (d ∷ ds) ++ rest) ≡ (points ++ d) ++ tail =
      ap (λ t. points ++ t) (append_assoc d (flatten ds) rest) ∙ sym (append_assoc points d tail) in
    let total = length-append (points ++ d) tail in
    elim (Bool-cases (ltb maximum (length (points ++ d)))) [
      | inl over ↦ rw (
        append_points_lem maximum points d h,
        over,
        whole,
        take-append (maximum + 1) (points ++ d) tail (ground arith),
        lt→ltb maximum (length ((points ++ d) ++ tail)) (ground arith),
      )
      | inr more ↦
          rw
            (
              append_points_lem maximum points d h,
              more,
              take_all (maximum + 1) (points ++ d) (ground arith),
              whole,
            )
            (read_points_lem maximum (points ++ d) ds rest (ground arith))
    ]

-- What is read is the file, up to one code point more than the limit, and whether the file has it.
pub read_utf8_prefix_lem :
    (file : Decoded) (maximum : ℕ)
    → read_utf8_prefix file maximum ≡ record {
      text = take (maximum + 1) (contents file);
      over_limit = ltb maximum (length (contents file));
    }
unfolding read_utf8_prefix
read_utf8_prefix_lem file maximum = read_points_lem maximum [] file.reads file.rest (omega arith)

room : marker_budget + 13 ≤ max_injected
unfolding marker_budget truncation_marker
room = omega arith

-- Whatever a regular file holds: it is loaded, as a text of at most `max_injected` code points. A file within the limit is
-- loaded whole; of a longer one the text ends with the marker of the truncation.
pub load_index_total :
    (file : Decoded)
    → (loaded : Text) × (load_index (regular file) ≡ ok loaded)
      × (length loaded ≤ max_injected)
      × ((length (contents file) ≤ max_injected) × (loaded ≡ contents file)
          ⊎ (max_injected < length (contents file))
            × ((front : Text) × (loaded ≡ front ++ (truncation_marker ++ (10 ∷ [])))))
unfolding load_index inspect_index
load_index_total file = elim (Bool-cases (ltb max_injected (length (contents file)))) [
  | inl over ↦
      let longer = ltb→lt max_injected (length (contents file)) over in
      let (loaded, e, bound, c) =
        project_index_total (take (max_injected + 1) (contents file)) max_injected room in
      (
        loaded,
        rw (read_utf8_prefix_lem file max_injected, over) e,
        bound,
        elim c [
          | inl short ↦
              absurd
                (omega (arith, short.0, longer, length-take (max_injected + 1) (contents file)))
          | inr marked ↦ inr (longer, marked.1)
        ],
      )
  | inr within ↦
      let short = ltb→le max_injected (length (contents file)) within in
      let whole = take_all (max_injected + 1) (contents file) (omega arith) in
      (
        contents file,
        rw (read_utf8_prefix_lem file max_injected, within, whole),
        short,
        inl (short, refl),
      )
]
