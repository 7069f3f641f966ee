-- ===== src/Dsh/Reads/FailClosed.antt =====
-- What a coordinate holds after the grouped reads.
use qq_index.Prelude.{
  ℕ, ◌≡◌, refl, leb, All-map, sym, subst, true, false, ◌&&◌, Option, none, some, List, [], ◌∷◌,
  ◌==◌, arith, inl, inr, Bool-cases, ok, Outcome-cases, All,
}
use qq_index.Dsh.Snapshots.{
  Request, SnapshotDocument, Settlement, grouped_snapshot_chunks, validate_snapshot_settlements,
}
use qq_index.Dsh.Decimal.{max_safe_integer}
use qq_index.Dsh.Snapshots.Settlements.{Asked, settlements-Asked}
use qq_index.Dsh.Reads.Rejections.{rejected_in, read_chunks-rejected, cleared}
use qq_index.Dsh.Reads.{
  holds, Coordinate, Read, set_document, set_documents, clear_rejected, pairs_to_read, take_answer,
  read_chunks, read_grouped, own_document,
}

abbrev Own : List Coordinate → Type 0
Own cs = All (λ (c : Coordinate). own_document c ≡ true) cs

-- The number of an accepted document is a safe integer.
abbrev Safe : ℕ × SnapshotDocument → Type 0
Safe entry = leb entry.1.seq max_safe_integer ≡ true

Asked-Safe :
    (requests : List Request) (entry : ℕ × SnapshotDocument) → Asked requests entry → Safe entry
Asked-Safe requests (session, d) (own, safe, wanted) = safe

set_document-Own :
    (session : ℕ) (d : SnapshotDocument) (cs r : List Coordinate)
    → leb d.seq max_safe_integer ≡ true
    → Own cs
    → set_document session d cs ≡ ok r
    → Own r
unfolding set_document
set_document-Own session d [] r safe v h = cc
set_document-Own session d (c ∷ cs) r safe (own, later) h =
    elim (Bool-cases (c.session == session && c.seq == d.seq)) [
      | inl e ↦
          let same : r ≡ record c { document = some d } ∷ cs = ground (arith, e) in
          subst Own (sym same) (ground arith, later)
      | inr e ↦ elim (Outcome-cases (set_document session d cs)) [
        | inl (rest, f) ↦
            let same : r ≡ c ∷ rest = ground (arith, e, f) in
            subst Own (sym same) (own, set_document-Own session d cs rest safe later f)
        | inr (x, f) ↦ absurd (ground (arith, e, f))
      ]
    ]

set_documents-Own :
    (ds : List (ℕ × SnapshotDocument)) (cs r : List Coordinate)
    → All Safe ds
    → Own cs
    → set_documents ds cs ≡ ok r
    → Own r
unfolding set_documents
set_documents-Own [] cs r safe v h = let same : cs ≡ r = ground arith in subst Own same v
set_documents-Own ((session, d) ∷ ds) cs r (here, safe) v h =
    elim (Outcome-cases (set_document session d cs)) [
      | inl (rest, e) ↦
          set_documents-Own ds rest r safe (set_document-Own session d cs rest here v e)
            (rw (e, set_documents) at h)
      | inr (x, e) ↦ absurd (ground (arith, e))
    ]

clear_rejected-Own :
    (rejected : List ℕ) (cs : List Coordinate) → Own cs → Own (clear_rejected rejected cs)
unfolding clear_rejected
clear_rejected-Own rejected [] v = tt
clear_rejected-Own rejected (c ∷ cs) (own, later) =
    (ground arith, clear_rejected-Own rejected cs later)

module _ (answer : List Request → Option (List Settlement)) where
  take_answer-Own :
      (requests : List Request) (given : Option (List Settlement)) (r r' : Read)
      → Own r.coordinates
      → take_answer answer requests given r ≡ ok r'
      → Own r'.coordinates
  unfolding take_answer
  take_answer-Own requests none r r' v h =
      let same : r ≡ r' = ground arith in subst (λ (q : Read). Own q.coordinates) same v
  take_answer-Own requests (some response) r r' v h =
      elim (Outcome-cases (validate_snapshot_settlements response requests)) [
        | inr (x, e) ↦ absurd (ground (arith, e))
        | inl (parsed, e) ↦ elim (Outcome-cases (set_documents parsed.documents r.coordinates)) [
          | inr (x, f) ↦ absurd (ground (arith, e, f))
          | inl (cs, f) ↦
              let same : r'.coordinates ≡ cs = ground (arith, e, f) in
              subst Own (sym same) (
                set_documents-Own parsed.documents r.coordinates cs
                  (All-map (Asked-Safe requests) parsed.documents
                    (settlements-Asked response requests parsed e).1)
                  v f)
        ]
      ]

  read_chunks-Own :
      (chunks : List (List Request)) (r r' : Read)
      → Own r.coordinates
      → read_chunks answer chunks r ≡ ok r'
      → Own r'.coordinates
  unfolding read_chunks
  read_chunks-Own [] r r' v h =
      let same : r ≡ r' = ground arith in subst (λ (q : Read). Own q.coordinates) same v
  read_chunks-Own (requests ∷ chunks) r r' v h =
      elim (Outcome-cases (take_answer answer requests (answer requests) r)) [
        | inr (x, e) ↦ absurd (ground (arith, e))
        | inl (q, e) ↦
            read_chunks-Own chunks q r' (take_answer-Own requests (answer requests) r q v e)
              (rw (e, read_chunks) at h)
      ]

  none-Own : (work : List Coordinate) → All (λ (c : Coordinate). c.document ≡ none) work → Own work
  none-Own [] v = tt
  none-Own (c ∷ cs) (empty, later) = (rw empty refl, none-Own cs later)

  -- Whatever the service answers: if the grouped reads of work that holds no document succeed, then every document that
  -- a coordinate holds afterwards has its number, and no coordinate of a session that the answer to any of the calls
  -- rejects holds one.
  pub read_grouped_lem :
      (work : List Coordinate) (r : Read)
      → All (λ (c : Coordinate). c.document ≡ none) work
      → read_grouped answer work ≡ ok r
      → let calls = grouped_snapshot_chunks (pairs_to_read work) in
        All (λ (c : Coordinate). own_document c ≡ true) r.coordinates
        × All
            (λ (c : Coordinate). (rejected_in answer calls c.session && holds c) ≡ false)
            r.coordinates
  unfolding read_grouped
  read_grouped_lem work r v h =
      let calls = grouped_snapshot_chunks (pairs_to_read work) in
      let start : Read = record { coordinates = work; titles = []; rejected = [] } in
      elim (Outcome-cases (read_chunks answer calls start)) [
        | inr (x, e) ↦ absurd (ground (arith, e))
        | inl (q, e) ↦
            let same : r.coordinates ≡ clear_rejected q.rejected q.coordinates =
              ground (arith, e) in
            let own = read_chunks-Own calls start q (none-Own work v) e in
            let named = λ (s : ℕ) (k : rejected_in answer calls s ≡ true).
              read_chunks-rejected answer calls start q s e (ground (arith, k)) in
            rw same (
              clear_rejected-Own q.rejected q.coordinates own,
              cleared (rejected_in answer calls) q.rejected q.coordinates named own,
            )
      ]
