-- ===== src/Dsh/Snapshots/Settlements.antt =====
-- What is accepted of the settlements was requested.
use qq_index.Prelude.{
  ℕ, suc, ◌≡◌, sym, subst, Bool, true, false, ◌&&◌, ◌||◌, List, [], ◌∷◌, ◌++◌, ◌==◌, leb, length,
  arith, inl, inr, All, All-append, All-map, ok, Outcome-cases,
}
use qq_index.Dsh.Source.{has}
use qq_index.Dsh.Decimal.{max_safe_integer}
use qq_index.Dsh.Snapshots.{
  Request, SnapshotDocument, Settlement, rejected, fulfilled, other_status, Parsed,
  validate_documents, validate_settlement, validate_all, validate_snapshot_settlements, join,
}

-- Whether a request asks for the number of the session.
abbrev pub asked : List Request → ℕ → ℕ → Bool
asked [] session seq = false
asked (r ∷ rs) session seq = (r.session == session && has seq r.seqs) || asked rs session seq

-- A document that was asked for, and that says so itself, with a number that is a safe integer.
abbrev pub Asked : List Request → ℕ × SnapshotDocument → Type 0
Asked requests (session, d) =
    (d.session ≡ session)
    × (leb d.seq max_safe_integer ≡ true)
    × (asked requests session d.seq ≡ true)

documents-Asked :
    (r : Request) (rs : List Request) (previous : ℕ) (found : List SnapshotDocument)
    (documents : List (ℕ × SnapshotDocument))
    → validate_documents r previous found ≡ ok documents
    → All (Asked (r ∷ rs)) documents
unfolding validate_documents
documents-Asked r rs previous [] documents h =
    let e : documents ≡ [] = ground arith in subst (All (Asked (r ∷ rs))) (sym e) tt
documents-Asked r rs previous (d ∷ ds) documents h =
    elim (Outcome-cases (validate_documents r (suc d.seq) ds)) [
      | inl (later, e) ↦
          let same : documents ≡ (r.session, d) ∷ later = ground (arith, e) in
          let own : d.session ≡ r.session = ground (arith, e) in
          let wanted : has d.seq r.seqs ≡ true = ground (arith, e) in
          subst (All (Asked (r ∷ rs))) (sym same)
            ((own, ground (arith, e), ground arith), documents-Asked r rs (suc d.seq) ds later e)
      | inr (x, e) ↦ absurd (ground (arith, e))
    ]

settlement-Asked :
    (r : Request) (rs : List Request) (s : Settlement) (parsed : Parsed)
    → validate_settlement r s ≡ ok parsed
    → All (Asked (r ∷ rs)) parsed.documents
unfolding validate_settlement
settlement-Asked r rs (rejected shape session) parsed h =
    let e : parsed.documents ≡ [] = ground arith in subst (All (Asked (r ∷ rs))) (sym e) tt
settlement-Asked r rs (fulfilled shape header session header_session found title) parsed h =
    elim (Outcome-cases (validate_documents r 0 found)) [
      | inl (documents, e) ↦
          let same : parsed.documents ≡ documents = ground (arith, e) in
          subst (All (Asked (r ∷ rs))) (sym same) (documents-Asked r rs 0 found documents e)
      | inr (x, e) ↦ absurd (ground (arith, e))
    ]
settlement-Asked r rs (other_status session) parsed h = cc

later-Asked :
    (r : Request) (rs : List Request) (entry : ℕ × SnapshotDocument)
    → Asked rs entry
    → Asked (r ∷ rs) entry
later-Asked r rs (session, d) (own, safe, wanted) = (own, safe, ground arith)

All-Asked :
    (ss : List Settlement) (rs : List Request) (parsed : Parsed)
    → validate_all ss rs ≡ ok parsed
    → All (Asked rs) parsed.documents
unfolding validate_all join
All-Asked [] rs parsed h =
    let e : parsed.documents ≡ [] = ground arith in subst (All (Asked rs)) (sym e) tt
All-Asked (s ∷ ss) [] parsed h = cc
All-Asked (s ∷ ss) (r ∷ rs) parsed h = elim (Outcome-cases (validate_settlement r s)) [
  | inr (x, e) ↦ absurd (ground (arith, e))
  | inl (here, e) ↦ elim (Outcome-cases (validate_all ss rs)) [
    | inr (x, f) ↦ absurd (ground (arith, e, f))
    | inl (later, f) ↦
        let same : parsed.documents ≡ here.documents ++ later.documents = ground (arith, e, f) in
        subst (All (Asked (r ∷ rs))) (sym same) (
          All-append (Asked (r ∷ rs)) here.documents later.documents
            (settlement-Asked r rs s here e)
            (All-map (later-Asked r rs) later.documents (All-Asked ss rs later f)))
  ]
]

-- If the settlements are accepted, there is one for each request, and every document taken from them names
-- its session itself, has a safe integer as its number, and was asked for by a request for that session.
pub settlements-Asked :
    (response : List Settlement) (requests : List Request) (parsed : Parsed)
    → validate_snapshot_settlements response requests ≡ ok parsed
    → (length response ≡ length requests) × All (Asked requests) parsed.documents
unfolding validate_snapshot_settlements
settlements-Asked response requests parsed h =
    (ground arith, All-Asked response requests parsed (ground arith))
