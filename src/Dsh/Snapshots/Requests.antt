-- ===== src/Dsh/Snapshots/Requests.antt =====
-- The size of the calls that `groupedSnapshotChunks` makes.
use qq_index.Prelude.{
  ℕ, zero, suc, ◌+◌, ◌-◌, ◌≤◌, ◌<◌, ◌≡◌, refl, ◌||◌, List, [], ◌∷◌, ◌++◌, ltb, leb, ltb→le, drop,
  length, length-append, length-take, length-drop, arith, inl, inr, All, All-append, Bool-cases,
}
use qq_index.Dsh.Snapshots.{
  Request, Grouping, max_groups, max_coordinates, by_session, flush, full_slices, split_large, push,
  place_group, place_groups, flush_current, grouped_snapshot_chunks,
}

-- How many coordinates a chunk has, and that it is not too large.
abbrev pub total_coordinates : List Request → ℕ
total_coordinates [] = 0
total_coordinates (r ∷ rs) = length r.seqs + total_coordinates rs

total-snoc :
    (rs : List Request) (r : Request)
    → total_coordinates (rs ++ (r ∷ [])) ≡ total_coordinates rs + length r.seqs
total-snoc [] r = omega arith
total-snoc (q ∷ rs) r = omega (arith, total-snoc rs r)

abbrev pub Sized : List Request → Type 0
Sized chunk =
    (1 ≤ length chunk) × (length chunk ≤ max_groups) × (total_coordinates chunk ≤ max_coordinates)

record Inv (g : Grouping) : Type 0 where
  sized : All Sized g.chunks
  counted : g.coordinates ≡ total_coordinates g.current
  few : g.coordinates ≤ max_coordinates
  short : length g.current ≤ max_groups

flush_current-Inv :
    (chunks : List (List Request)) (current : List Request) (n : ℕ)
    → All Sized chunks
    → n ≡ total_coordinates current
    → n ≤ max_coordinates
    → length current ≤ max_groups
    → Inv (flush_current chunks current n)
unfolding flush_current
flush_current-Inv chunks [] n v counted few short = record {
  sized = v;
  counted = counted;
  few = few;
  short = short;
}
flush_current-Inv chunks (r ∷ rs) n v counted few short = record {
  sized = All-append Sized chunks _ v ((omega arith, short, omega arith), tt);
  counted = refl;
  few = omega arith;
  short = omega arith;
}

flush-Inv : (g : Grouping) → Inv g → Inv (flush g)
unfolding flush
flush-Inv g v = flush_current-Inv g.chunks g.current g.coordinates v.sized v.counted v.few v.short

flush_current-empty :
    (chunks : List (List Request)) (current : List Request) (n : ℕ)
    → (flush_current chunks current n).current ≡ []
unfolding flush_current
flush_current-empty chunks [] n = refl
flush_current-empty chunks (r ∷ rs) n = refl

pub flush-empty : (g : Grouping) → (flush g).current ≡ []
unfolding flush
flush-empty g = flush_current-empty g.chunks g.current g.coordinates

push-Inv :
    (r : Request) (g : Grouping)
    → length g.current < max_groups
    → g.coordinates + length r.seqs ≤ max_coordinates
    → Inv g
    → Inv (push r g)
unfolding push
push-Inv r g short few v = record {
  sized = v.sized;
  counted = omega (arith, total-snoc g.current r, v.counted);
  few = few;
  short = omega (arith, length-append g.current (r ∷ []));
}

slices-Sized :
    (fuel session : ℕ) (seqs : List ℕ) (offset : ℕ) (chunks : List (List Request))
    → All Sized chunks
    → All Sized (full_slices fuel session seqs offset chunks).0
unfolding full_slices
slices-Sized zero session seqs offset chunks v = v
slices-Sized (suc fuel) session seqs offset chunks v =
    elim (Bool-cases (ltb max_coordinates (length seqs - offset))) [
      | inl e ↦ rw e (
          slices-Sized fuel session seqs (offset + max_coordinates) _ (
            All-append Sized chunks _ v (
              (
                omega arith,
                omega arith,
                omega (arith, length-take max_coordinates (drop offset seqs)),
              ),
              tt,
            )))
      | inr e ↦ rw e v
    ]

slices-end :
    (fuel session : ℕ) (seqs : List ℕ) (offset : ℕ) (chunks : List (List Request))
    → length seqs ≤ offset + fuel
    → length seqs ≤ (full_slices fuel session seqs offset chunks).1 + max_coordinates
unfolding full_slices
slices-end zero session seqs offset chunks h = omega arith
slices-end (suc fuel) session seqs offset chunks h =
    elim (Bool-cases (ltb max_coordinates (length seqs - offset))) [
      | inl e ↦ rw e (slices-end fuel session seqs (offset + max_coordinates) _ (omega arith))
      | inr e ↦ rw e (omega (arith, ltb→le max_coordinates (length seqs - offset) e))
    ]

split_large-Inv : (r : Request) (g : Grouping) → g.current ≡ [] → Inv g → Inv (split_large r g)
unfolding split_large
split_large-Inv r g empty v =
    let offset = (full_slices (length r.seqs) r.session r.seqs 0 g.chunks).1 in
    let sized = slices-Sized (length r.seqs) r.session r.seqs 0 g.chunks v.sized in
    let ended = slices-end (length r.seqs) r.session r.seqs 0 g.chunks (omega arith) in
    let none_current : total_coordinates g.current ≡ 0 = rw empty refl in
    let no_current : length g.current ≡ 0 = rw empty refl in
    elim (Bool-cases (ltb offset (length r.seqs))) [
      | inl e ↦ rw e (record {
        sized = sized;
        counted = omega (
          arith,
          none_current,
          total-snoc g.current (record { session = r.session; seqs = drop offset r.seqs }),
          length-drop offset r.seqs,
        );
        few = omega (arith, ended);
        short = omega (
          arith,
          no_current,
          length-append g.current (record { session = r.session; seqs = drop offset r.seqs } ∷ []),
        );
      })
      | inr e ↦ rw e (record { sized = sized; counted = v.counted; few = v.few; short = v.short })
    ]

flush-short : (g : Grouping) → length (flush g).current ≡ 0
flush-short g = rw (flush-empty g) refl

flush-room :
    (r : Request) (g : Grouping)
    → length r.seqs ≤ max_coordinates
    → Inv (flush g)
    → (flush g).coordinates + length r.seqs ≤ max_coordinates
flush-room r g h v =
    let counted : total_coordinates (flush g).current ≡ 0 = rw (flush-empty g) refl in
    omega (arith, counted, v.counted)

place_group-Inv : (r : Request) (g : Grouping) → Inv g → Inv (place_group r g)
unfolding place_group
place_group-Inv r g v = elim (Bool-cases (ltb max_coordinates (length r.seqs))) [
  | inl e ↦ rw e (split_large-Inv r (flush g) (flush-empty g) (flush-Inv g v))
  | inr e ↦
      rw e
        (elim (Bool-cases (
          leb max_groups (length g.current)
          || ltb max_coordinates (g.coordinates + length r.seqs))) [
            | inl f ↦ rw f (
                push-Inv r (flush g) (omega (arith, flush-short g))
                  (flush-room r g (ltb→le max_coordinates (length r.seqs) e) (flush-Inv g v))
                  (flush-Inv g v))
            | inr f ↦ rw f (push-Inv r g (ground arith) (ground arith) v)
          ])
]

place_groups-Inv : (rs : List Request) (g : Grouping) → Inv g → Inv (place_groups rs g)
unfolding place_groups
place_groups-Inv [] g v = v
place_groups-Inv (r ∷ rs) g v = place_groups-Inv rs (place_group r g) (place_group-Inv r g v)

-- No call that is made is empty, asks for more than 256 sessions, or for more than 256 coordinates.
pub calls-Sized : (work : List (ℕ × ℕ)) → All Sized (grouped_snapshot_chunks work)
unfolding grouped_snapshot_chunks
calls-Sized work =
    let empty_grouping : Grouping = record { chunks = []; current = []; coordinates = 0 } in
    let started : Inv empty_grouping = record {
      sized = tt;
      counted = refl;
      few = omega arith;
      short = omega arith;
    } in
    let v =
      flush-Inv (place_groups (by_session work []) empty_grouping)
        (place_groups-Inv (by_session work []) empty_grouping started) in
    v.sized
