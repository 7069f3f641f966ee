-- ===== src/Dsh/Chunks/Slices.antt =====
-- What `chunkArray` guarantees: the slices are the values in order, none empty, none too long.
use qq_index.Prelude.{
  ℕ, zero, suc, ◌+◌, ◌≤◌, ◌≡◌, sym, List, ◌∷◌, take, flatten, arith, inl, inr, Bool-cases, ltb,
  ltb→lt, ltb→le, length, length-take, length-drop, drop, drop-drop, take-append-drop, drop_all,
  All,
}
use qq_index.Dsh.Chunks.{chunk_array_from, chunk_array}

module _ {ℓ} {A : Type ℓ} (values : List A) (size : ℕ) (some_room : 1 ≤ size) where
  flatten-slices :
      (fuel offset : ℕ)
      → length values ≤ offset + fuel
      → flatten (chunk_array_from fuel values size offset) ≡ drop offset values
  unfolding chunk_array_from flatten
  flatten-slices zero offset enough = sym (drop_all offset values (omega arith))
  flatten-slices (suc fuel) offset enough = elim (Bool-cases (ltb offset (length values))) [
    | inl more ↦
        rw (more, flatten-slices fuel (offset + size) (omega arith), ← drop-drop offset size values)
          (take-append-drop size (drop offset values))
    | inr done ↦ rw done (sym (drop_all offset values (ltb→le offset (length values) done)))
  ]

  slices_bounds :
      (fuel offset : ℕ)
      → All
          (λ slice. (1 ≤ length slice) × (length slice ≤ size))
          (chunk_array_from fuel values size offset)
  unfolding chunk_array_from
  slices_bounds zero offset = tt
  slices_bounds (suc fuel) offset = elim (Bool-cases (ltb offset (length values))) [
    | inl more ↦ rw more (
      (
        omega (
          arith,
          ltb→lt offset (length values) more,
          length-take size (drop offset values),
          length-drop offset values,
        ),
        omega (arith, length-take size (drop offset values)),
      ),
      slices_bounds fuel (offset + size),
    )
    | inr done ↦ rw done tt
  ]

  -- The slices, one after the other, are the values in their order; none is empty, and none is
  -- longer than `size`. The fuel that `chunk_array` takes is enough.
  pub chunk_array_lem :
      (flatten (chunk_array values size) ≡ values)
      × All (λ slice. (1 ≤ length slice) × (length slice ≤ size)) (chunk_array values size)
  unfolding chunk_array
  chunk_array_lem =
      (flatten-slices (length values) 0 (omega arith), slices_bounds (length values) 0)

-- An array that is not empty has a first slice.
pub chunk_array_cons {ℓ} :
    {A : Type ℓ} (value : A) (values : List A) (size : ℕ)
    → (slice : List A) × (later : List (List A)) × (chunk_array (value ∷ values) size
        ≡ slice ∷ later)
unfolding chunk_array chunk_array_from
chunk_array_cons value values size = (
  take size (value ∷ values),
  chunk_array_from (length values) (value ∷ values) size size,
  ground arith,
)
