-- ===== src/Client/Frames/Owners.antt =====
-- `#onData` of src/session-index-client.mjs: what handing over and refusing keep, arriving data keep.
use qq_index.Prelude.{
  ℕ, zero, suc, ◌+◌, Bool, true, false, not, ◌&&◌, ◌||◌, List, ◌++◌, ltb, if◌then◌else◌, length,
  take, drop, inl, inr, Bool-cases, Option-cases,
}
use qq_index.Client.Responses.{max_frame_bytes}
use qq_index.Client.Frames.{Stream, Owner, has_newline, index_of_newline, drain, on_data}

module _ {S : Type 0} (o : Owner S) {P : S → Type 0}
    (delivered : (frame : List ℕ) (s : S) → P s → P (o.deliver frame s))
    (refused : (s : S) → P s → P (o.refuse s)) where
  refused_if : (b : Bool) (s : S) → P s → P (if b then o.refuse s else s)
  refused_if true s h = refused s h
  refused_if false s h = h

  drain_keeps : (fuel : ℕ) (buffer : List ℕ) (s : S) → P s → P (drain o fuel buffer s).owner
  unfolding drain
  drain_keeps zero buffer s h = h
  drain_keeps (suc fuel) buffer s h = elim (Option-cases (index_of_newline buffer)) [
    | inl e ↦ rw (e, drain) (refused_if (ltb max_frame_bytes (length buffer)) s h)
    | inr (n, e) ↦ elim (Bool-cases (ltb max_frame_bytes n)) [
      | inl f ↦ rw (e, f, drain) (refused s h)
      | inr f ↦ elim (Bool-cases (o.is_stopped (o.deliver (take n buffer) s))) [
        | inl g ↦ rw (e, f, g, drain) (delivered (take n buffer) s h)
        | inr g ↦
            rw (e, f, g, drain)
              (drain_keeps fuel (drop (suc n) buffer) (o.deliver (take n buffer) s)
                (delivered (take n buffer) s h))
      ]
    ]
  ]

  pub on_data_keeps : (chunk : List ℕ) (t : Stream S) → P t.owner → P (on_data o chunk t).owner
  unfolding on_data
  on_data_keeps chunk t h = elim (Bool-cases (o.is_stopped t.owner || o.is_closed t.owner)) [
    | inl e ↦ rw (e, on_data) h
    | inr e ↦
        elim (Bool-cases
          (ltb (max_frame_bytes + 1) (length t.buffer + length chunk) && not (has_newline chunk))) [
            | inl f ↦ rw (e, f, on_data) (refused t.owner h)
            | inr f ↦
                rw (e, f, on_data)
                  (drain_keeps (suc (length (t.buffer ++ chunk))) (t.buffer ++ chunk) t.owner h)
          ]
  ]
