-- ===== src/Dsh/Snapshots/Rejections.antt =====
-- The sessions that settlements reject are those that `validateSnapshotSettlements` names.
use qq_index.Prelude.{
  ℕ, ◌≡◌, refl, Bool, true, false, ◌||◌, List, [], ◌∷◌, ◌++◌, ◌==◌, arith, inl, inr, Bool-cases, ok,
  Outcome-cases,
}
use qq_index.Dsh.Source.{has}
use qq_index.Dsh.Snapshots.{
  Request, Settlement, rejected, fulfilled, other_status, Parsed, validate_settlement, validate_all,
  validate_snapshot_settlements, join,
}

-- Whether one of the settlements rejects the session.
unfoldable pub rejects : List Settlement → ℕ → Bool
rejects [] session = false
rejects (rejected shape own ∷ ss) session = (own == session) || rejects ss session
rejects (s ∷ ss) session = rejects ss session

pub has-append : (x : ℕ) (xs ys : List ℕ) → has x (xs ++ ys) ≡ (has x xs || has x ys)
unfolding has
has-append x [] ys = refl
has-append x (y ∷ xs) ys = ground (arith, has-append x xs ys)

-- An accepted settlement that rejects a session names it as rejected.
settlement-rejects :
    (r : Request) (s : Settlement) (parsed : Parsed) (session : ℕ)
    → validate_settlement r s ≡ ok parsed
    → rejects (s ∷ []) session ≡ true
    → has session parsed.rejected_sessions ≡ true
unfolding validate_settlement rejects has
settlement-rejects r (rejected shape own) parsed session h k = ground arith
settlement-rejects r (fulfilled shape header own header_session found title) parsed session h k = cc
settlement-rejects r (other_status own) parsed session h k = cc

rejects-cons :
    (s : Settlement) (ss : List Settlement) (session : ℕ)
    → rejects (s ∷ ss) session ≡ (rejects (s ∷ []) session || rejects ss session)
unfolding rejects
rejects-cons (rejected shape own) ss session = ground arith
rejects-cons (fulfilled shape header own header_session found title) ss session = refl
rejects-cons (other_status own) ss session = refl

all-rejects :
    (ss : List Settlement) (rs : List Request) (parsed : Parsed) (session : ℕ)
    → validate_all ss rs ≡ ok parsed
    → rejects ss session ≡ true
    → has session parsed.rejected_sessions ≡ true
unfolding validate_all join rejects
all-rejects [] rs parsed session h k = cc (k)
all-rejects (s ∷ ss) [] parsed session h k = cc
all-rejects (s ∷ ss) (r ∷ rs) parsed session h k = elim (Outcome-cases (validate_settlement r s)) [
  | inr (x, e) ↦ absurd (ground (arith, e))
  | inl (here, e) ↦ elim (Outcome-cases (validate_all ss rs)) [
    | inr (x, f) ↦ absurd (ground (arith, e, f))
    | inl (later, f) ↦
        let same : parsed.rejected_sessions ≡ here.rejected_sessions ++ later.rejected_sessions =
          ground (arith, e, f) in
        rw (same, has-append session here.rejected_sessions later.rejected_sessions)
          (elim (Bool-cases (rejects (s ∷ []) session)) [
            | inl own ↦ ground (arith, settlement-rejects r s here session e own)
            | inr own ↦
                let more : rejects ss session ≡ true =
                  ground (arith, own, rejects-cons s ss session, k) in
                ground (arith, all-rejects ss rs later session f more)
          ])
  ]
]

pub answer-rejects :
    (response : List Settlement) (requests : List Request) (parsed : Parsed) (session : ℕ)
    → validate_snapshot_settlements response requests ≡ ok parsed
    → rejects response session ≡ true
    → has session parsed.rejected_sessions ≡ true
unfolding validate_snapshot_settlements
answer-rejects response requests parsed session h k =
    all-rejects response requests parsed session (ground arith) k
