-- ===== src/Dsh/Snippets/Titles.antt =====
-- A clipped text.
use qq_index.Prelude.{
  ℕ, ◌+◌, ◌≤◌, ◌<◌, ◌≡◌, refl, ap, ◌⊎◌, inl, inr, ◌&&◌, [], ◌∷◌, ◌++◌, arith, ltb, leb, Bool-cases,
}
use qq_index.Readme.Text.{Text, keep_start, trim_end}
use qq_index.Dsh.Snippets.{
  units_of, bytes_of, total, units, bytes, ellipsis, prefix_loop, prefix_clip_with_ellipsis,
}
use qq_index.Dsh.Snippets.Bounds.{units-ellipsis, bytes-ellipsis}

-- Trimming makes no text larger.
total-keep_start :
    (size : ℕ → ℕ) (c : ℕ) (t : Text) → total size (keep_start c t) ≤ size c + total size t
unfolding total
total-keep_start size c [] = ground arith
total-keep_start size c (d ∷ ds) = omega arith

total-trim_end : (size : ℕ → ℕ) (t : Text) → total size (trim_end t) ≤ total size t
unfolding total trim_end
total-trim_end size [] = omega arith
total-trim_end size (c ∷ cs) =
    omega (arith, total-trim_end size cs, total-keep_start size c (trim_end cs))

total-snoc : (size : ℕ → ℕ) (t : Text) (c : ℕ) → total size (t ++ (c ∷ [])) ≡ total size t + size c
unfolding total
total-snoc size [] c = omega arith
total-snoc size (d ∷ ds) c = omega (arith, total-snoc size ds c)

-- What the loop takes leaves room for the ellipsis.
prefix_loop_bounds :
    (mu mb used_units used_bytes : ℕ) (t : Text)
    → used_units + 1 ≤ mu
    → used_bytes + 3 ≤ mb
    → (used_units + total units_of (prefix_loop mu mb used_units used_bytes t) + 1 ≤ mu)
      × (used_bytes + total bytes_of (prefix_loop mu mb used_units used_bytes t) + 3 ≤ mb)
unfolding prefix_loop total
prefix_loop_bounds mu mb used_units used_bytes [] h k = (omega arith, omega arith)
prefix_loop_bounds mu mb used_units used_bytes (c ∷ cs) h k =
    let later = prefix_loop_bounds mu mb (used_units + units_of c) (used_bytes + bytes_of c) cs in
    (ground (arith, later), ground (arith, later))

-- The loop stops at the first point that leaves no room for the ellipsis, and takes a text without such a point whole.
prefix_loop_stop :
    (mu mb used_units used_bytes : ℕ) (t : Text)
    → used_units + 1 ≤ mu
    → used_bytes + 3 ≤ mb
    → let front = prefix_loop mu mb used_units used_bytes t in
      (used_units + total units_of t + 1 ≤ mu) × (used_bytes + total bytes_of t + 3 ≤ mb)
      ⊎ (c : ℕ) × (rest : Text) × (t ≡ front ++ (c ∷ rest))
        × ((mu < used_units + total units_of front + units_of c + 1)
            ⊎ (mb < used_bytes + total bytes_of front + bytes_of c + 3))
unfolding prefix_loop total
prefix_loop_stop mu mb used_units used_bytes [] h k = inl (omega arith, omega arith)
prefix_loop_stop mu mb used_units used_bytes (c ∷ cs) h k =
    elim (Bool-cases (ltb mu (used_units + units_of c + 1))) [
      | inl full ↦ rw full (inr (c, cs, refl, inl (ground arith)))
      | inr room ↦ elim (Bool-cases (ltb mb (used_bytes + bytes_of c + 3))) [
        | inl full ↦ rw (room, full) (inr (c, cs, refl, inr (ground arith)))
        | inr space ↦
            let later =
              prefix_loop_stop mu mb (used_units + units_of c) (used_bytes + bytes_of c) cs
                (ground arith) (ground arith) in
            rw (room, space)
              (elim later [
                | inl all ↦ inl (omega (arith, all), omega (arith, all))
                | inr (d, rest, e, stop) ↦ inr (
                  d,
                  rest,
                  ap (λ s. c ∷ s) e,
                  elim stop [ inl x ↦ inl (omega (arith, x)) | inr x ↦ inr (omega (arith, x)) ],
                )
              ])
      ]
    ]

-- With room for the ellipsis, a clipped text is within both of its bounds. A text within them stays as it is. A longer
-- text becomes its front part that leaves room for the ellipsis and whose next point would leave none, without the
-- white space at the end of that part, and the ellipsis.
pub prefix_clip_bounds :
    (value : Text) (maximum_code_units maximum_bytes : ℕ)
    → 1 ≤ maximum_code_units
    → 3 ≤ maximum_bytes
    → let clipped = prefix_clip_with_ellipsis value maximum_code_units maximum_bytes in
      (units clipped ≤ maximum_code_units)
      × (bytes clipped ≤ maximum_bytes)
      × ((units value ≤ maximum_code_units) × (bytes value ≤ maximum_bytes) × (clipped ≡ value)
          ⊎ ((maximum_code_units < units value) ⊎ (maximum_bytes < bytes value))
            × (front : Text) × (c : ℕ) × (rest : Text) × (value ≡ front ++ (c ∷ rest))
            × (clipped ≡ trim_end front ++ (ellipsis ∷ []))
            × (units front + 1 ≤ maximum_code_units)
            × (bytes front + 3 ≤ maximum_bytes)
            × ((maximum_code_units < units front + units_of c + 1)
                ⊎ (maximum_bytes < bytes front + bytes_of c + 3)))
unfolding prefix_clip_with_ellipsis units bytes
prefix_clip_bounds value mu mb h k =
    elim (Bool-cases (leb (units value) mu && leb (bytes value) mb)) [
      | inl short ↦ rw short (ground arith, ground arith, inl (ground arith, ground arith, refl))
      | inr long ↦
          let front : Text = prefix_loop mu mb 0 0 value in
          let within = prefix_loop_bounds mu mb 0 0 value (omega arith) (omega arith) in
          rw long (
            omega (
              arith,
              within,
              total-snoc units_of (trim_end front) ellipsis,
              total-trim_end units_of front,
              units-ellipsis,
            ),
            omega (
              arith,
              within,
              total-snoc bytes_of (trim_end front) ellipsis,
              total-trim_end bytes_of front,
              bytes-ellipsis,
            ),
            elim (prefix_loop_stop mu mb 0 0 value (omega arith) (omega arith)) [
              | inl all ↦ absurd (ground arith)
              | inr (c, rest, e, stop) ↦ inr (
                ground arith,
                front,
                c,
                rest,
                e,
                refl,
                omega (arith, within),
                omega (arith, within),
                elim stop [ inl x ↦ inl (omega (arith, x)) | inr x ↦ inr (omega (arith, x)) ],
              )
            ],
          )
    ]
