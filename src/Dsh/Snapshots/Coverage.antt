-- ===== src/Dsh/Snapshots/Coverage.antt =====
-- The calls that `groupedSnapshotChunks` makes ask for all coordinates.
use qq_index.Prelude.{
  ℕ, zero, suc, ◌+◌, ◌-◌, ◌≡◌, ◌∙◌, refl, sym, ◌||◌, List, [], ◌∷◌, ◌++◌, flatten, flatten-snoc,
  ltb, leb, ◌==◌, ◌&&◌, if◌then◌else◌, ltb→le, take, drop, drop-drop, drop_all, take-append-drop,
  length, arith, inl, inr, Bool-cases,
}
use mathlib.Core.List.{append_assoc, append-nil}
use qq_index.Dsh.Snapshots.{
  Request, Grouping, max_groups, max_coordinates, add_coordinate, by_session, flush, full_slices,
  split_large, push, place_group, place_groups, flush_current, grouped_snapshot_chunks,
}
use qq_index.Dsh.Snapshots.Requests.{flush-empty}

-- The coordinates of a request.
abbrev pairs : ℕ → List ℕ → List (ℕ × ℕ)
pairs session [] = []
pairs session (seq ∷ seqs) = (session, seq) ∷ pairs session seqs

abbrev pub pairs_of : List Request → List (ℕ × ℕ)
pairs_of [] = []
pairs_of (r ∷ rs) = pairs r.session r.seqs ++ pairs_of rs

-- How often a coordinate stands in a list.
abbrev pub times : ℕ → ℕ → List (ℕ × ℕ) → ℕ
times session seq [] = 0
times session seq ((s, q) ∷ work) =
    (if s == session && q == seq then 1 else 0) + times session seq work

times-append :
    (session seq : ℕ) (a b : List (ℕ × ℕ))
    → times session seq (a ++ b) ≡ times session seq a + times session seq b
times-append session seq [] b = omega arith
times-append session seq ((s, q) ∷ a) b = omega (arith, times-append session seq a b)

pairs-append :
    (session : ℕ) (a b : List ℕ) → pairs session (a ++ b) ≡ pairs session a ++ pairs session b
pairs-append session [] b = refl
pairs-append session (x ∷ a) b = rw (pairs-append session a b)

pairs_of-append : (a b : List Request) → pairs_of (a ++ b) ≡ pairs_of a ++ pairs_of b
pairs_of-append [] b = refl
pairs_of-append (r ∷ a) b =
    rw (pairs_of-append a b) (sym (append_assoc (pairs r.session r.seqs) (pairs_of a) (pairs_of b)))

pairs_of-snoc :
    (a : List Request) (r : Request)
    → pairs_of (a ++ (r ∷ [])) ≡ pairs_of a ++ pairs r.session r.seqs
pairs_of-snoc a r = pairs_of-append a (r ∷ []) ∙ rw (append-nil (pairs r.session r.seqs))

-- All coordinates that the loop has placed.
abbrev held : Grouping → List (ℕ × ℕ)
held g = pairs_of (flatten g.chunks) ++ pairs_of g.current

slice-pairs :
    (front : List (ℕ × ℕ)) (session : ℕ) (seqs : List ℕ) (offset : ℕ)
    → (front ++ pairs session (take max_coordinates (drop offset seqs)))
        ++ pairs session (drop (offset + max_coordinates) seqs)
      ≡ front ++ pairs session (drop offset seqs)
slice-pairs front session seqs offset =
    append_assoc front (pairs session (take max_coordinates (drop offset seqs)))
      (pairs session (drop (offset + max_coordinates) seqs))
    ∙ rw (
      ← drop-drop offset max_coordinates seqs,
      ← pairs-append session (take max_coordinates (drop offset seqs))
          (drop max_coordinates (drop offset seqs)),
      take-append-drop max_coordinates (drop offset seqs),
    )

slices-pairs :
    (fuel session : ℕ) (seqs : List ℕ) (offset : ℕ) (chunks : List (List Request))
    → pairs_of (flatten (full_slices fuel session seqs offset chunks).0)
        ++ pairs session (drop (full_slices fuel session seqs offset chunks).1 seqs)
      ≡ pairs_of (flatten chunks) ++ pairs session (drop offset seqs)
unfolding full_slices
slices-pairs zero session seqs offset chunks = refl
slices-pairs (suc fuel) session seqs offset chunks =
    elim (Bool-cases (ltb max_coordinates (length seqs - offset))) [
      | inl e ↦ rw e (
          slices-pairs fuel session seqs (offset + max_coordinates) _
          ∙ rw
              (
                flatten-snoc chunks (
                    record { session = session; seqs = take max_coordinates (drop offset seqs) }
                    ∷ []),
                pairs_of-snoc (flatten chunks)
                    (record { session = session; seqs = take max_coordinates (drop offset seqs) }),
              )
              (slice-pairs (pairs_of (flatten chunks)) session seqs offset))
      | inr e ↦ rw e
    ]

flush_current-held :
    (chunks : List (List Request)) (current : List Request) (n : ℕ)
    → held (flush_current chunks current n) ≡ pairs_of (flatten chunks) ++ pairs_of current
unfolding flush_current
flush_current-held chunks [] n = refl
flush_current-held chunks (r ∷ rs) n =
    append-nil (pairs_of (flatten (chunks ++ ((r ∷ rs) ∷ []))))
    ∙ rw (flatten-snoc chunks (r ∷ rs)) (pairs_of-append (flatten chunks) (r ∷ rs))

flush-held : (g : Grouping) → held (flush g) ≡ held g
unfolding flush
flush-held g = flush_current-held g.chunks g.current g.coordinates

push-held : (r : Request) (g : Grouping) → held (push r g) ≡ held g ++ pairs r.session r.seqs
unfolding push
push-held r g =
    rw (pairs_of-snoc g.current r) (
      sym
        (append_assoc (pairs_of (flatten g.chunks)) (pairs_of g.current) (pairs r.session r.seqs)))

split_large-held :
    (r : Request) (g : Grouping)
    → g.current ≡ []
    → held (split_large r g) ≡ held g ++ pairs r.session r.seqs
unfolding split_large
split_large-held r g empty =
    let offset = (full_slices (length r.seqs) r.session r.seqs 0 g.chunks).1 in
    let placed = slices-pairs (length r.seqs) r.session r.seqs 0 g.chunks in
    elim (Bool-cases (ltb offset (length r.seqs))) [
      | inl e ↦
          rw
            (
              e,
              empty,
              append-nil (pairs r.session (drop offset r.seqs)),
              append-nil (pairs_of (flatten g.chunks)),
            )
            placed
      | inr e ↦
          let over : drop offset r.seqs ≡ [] =
            drop_all offset r.seqs (ltb→le offset (length r.seqs) e) in
          rw (e, empty, append-nil (pairs_of (flatten g.chunks))) (rw over at placed)
    ]

place_group-held :
    (r : Request) (g : Grouping) → held (place_group r g) ≡ held g ++ pairs r.session r.seqs
unfolding place_group
place_group-held r g = elim (Bool-cases (ltb max_coordinates (length r.seqs))) [
  | inl e ↦ rw e (split_large-held r (flush g) (flush-empty g) ∙ rw (flush-held g))
  | inr e ↦
      rw e
        (elim (Bool-cases (
          leb max_groups (length g.current)
          || ltb max_coordinates (g.coordinates + length r.seqs))) [
            | inl f ↦ rw f (push-held r (flush g) ∙ rw (flush-held g))
            | inr f ↦ rw f (push-held r g)
          ])
]

place_groups-held :
    (rs : List Request) (g : Grouping) → held (place_groups rs g) ≡ held g ++ pairs_of rs
unfolding place_groups
place_groups-held [] g = sym (append-nil (held g))
place_groups-held (r ∷ rs) g =
    place_groups-held rs (place_group r g)
    ∙ rw (place_group-held r g) (append_assoc (held g) (pairs r.session r.seqs) (pairs_of rs))

times-add_coordinate :
    (session seq s q : ℕ) (groups : List Request)
    → times session seq (pairs_of (add_coordinate s q groups))
      ≡ times session seq (pairs_of groups) + times session seq ((s, q) ∷ [])
unfolding add_coordinate
times-add_coordinate session seq s q [] = omega arith
times-add_coordinate session seq s q (g ∷ gs) = elim (Bool-cases (g.session == s)) [
  | inl e ↦
      let same : s ≡ g.session = ground arith in
      rw (e, same, pairs-append g.session g.seqs (q ∷ []))
        (omega (
          arith,
          times-append session seq (pairs g.session g.seqs ++ ((g.session, q) ∷ [])) (pairs_of gs),
          times-append session seq (pairs g.session g.seqs) ((g.session, q) ∷ []),
          times-append session seq (pairs g.session g.seqs) (pairs_of gs),
        ))
  | inr e ↦ rw e (
      omega (
        arith,
        times-append session seq (pairs g.session g.seqs) (pairs_of (add_coordinate s q gs)),
        times-append session seq (pairs g.session g.seqs) (pairs_of gs),
        times-add_coordinate session seq s q gs,
      ))
]

times-by_session :
    (session seq : ℕ) (work : List (ℕ × ℕ)) (groups : List Request)
    → times session seq (pairs_of (by_session work groups))
      ≡ times session seq (pairs_of groups) + times session seq work
unfolding by_session
times-by_session session seq [] groups = omega arith
times-by_session session seq ((s, q) ∷ work) groups = omega (
  arith,
  times-by_session session seq work (add_coordinate s q groups),
  times-add_coordinate session seq s q groups,
)

-- The calls ask for each coordinate exactly as often as it stands in the work: none is left out and none is
-- asked for twice.
pub calls_complete :
    (session seq : ℕ) (work : List (ℕ × ℕ))
    → times session seq (pairs_of (flatten (grouped_snapshot_chunks work))) ≡ times session seq work
unfolding grouped_snapshot_chunks flatten
calls_complete session seq work =
    let empty_grouping : Grouping = record { chunks = []; current = []; coordinates = 0 } in
    let placed = place_groups (by_session work []) empty_grouping in
    let all : held (flush placed) ≡ pairs_of (by_session work []) =
      flush-held placed ∙ place_groups-held (by_session work []) empty_grouping in
    rw (rw (flush-empty placed, append-nil (pairs_of (flatten (flush placed).chunks))) at all)
      (times-by_session session seq work [] ∙ omega arith)
