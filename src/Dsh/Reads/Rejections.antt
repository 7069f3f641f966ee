-- ===== src/Dsh/Reads/Rejections.antt =====
-- The sessions that the grouped reads count as rejected.
use qq_index.Prelude.{
  ℕ, ◌≡◌, subst, Bool, true, false, ◌||◌, ◌&&◌, Option, none, some, List, [], ◌∷◌, ◌++◌, arith, inl,
  inr, ok, Outcome-cases, All,
}
use qq_index.Dsh.Source.{has}
use qq_index.Dsh.Snapshots.{Request, Settlement, validate_snapshot_settlements}
use qq_index.Dsh.Snapshots.Rejections.{rejects, has-append, answer-rejects}
use qq_index.Dsh.Reads.{
  Coordinate, Read, clear_rejected, take_answer, read_chunks, holds, own_document,
}

-- Whether one of an answer's settlements rejects the session.
abbrev pub answer_rejects : Option (List Settlement) → ℕ → Bool
answer_rejects none session = false
answer_rejects (some response) session = rejects response session

-- Whether the answer to one of the calls rejects the session.
unfoldable pub rejected_in :
    (answer : List Request → Option (List Settlement)) → List (List Request) → ℕ → Bool
unfolding rejects
rejected_in answer [] session = false
rejected_in answer (requests ∷ chunks) session =
    answer_rejects (answer requests) session || rejected_in answer chunks session

module _ (answer : List Request → Option (List Settlement)) where
  -- A call adds the sessions that its answer rejects.
  take_answer-rejected :
      (requests : List Request) (given : Option (List Settlement)) (r r' : Read) (session : ℕ)
      → take_answer answer requests given r ≡ ok r'
      → (has session r.rejected || answer_rejects given session) ≡ true
      → has session r'.rejected ≡ true
  unfolding take_answer
  take_answer-rejected requests none r r' session h k =
      let same : r ≡ r' = ground arith in
      subst (λ (q : Read). has session q.rejected ≡ true) same (ground arith)
  take_answer-rejected requests (some response) r r' session h k =
      elim (Outcome-cases (validate_snapshot_settlements response requests)) [
        | inr (x, e) ↦ absurd (ground (arith, e))
        | inl (parsed, e) ↦
            let same : r'.rejected ≡ r.rejected ++ parsed.rejected_sessions = ground (arith, e) in
            rw (same, has-append session r.rejected parsed.rejected_sessions)
              (ground (arith, answer-rejects response requests parsed session e))
      ]

  -- The calls name every session that one of their answers rejects.
  pub read_chunks-rejected :
      (chunks : List (List Request)) (r r' : Read) (session : ℕ)
      → read_chunks answer chunks r ≡ ok r'
      → (has session r.rejected || rejected_in answer chunks session) ≡ true
      → has session r'.rejected ≡ true
  unfolding read_chunks rejected_in
  read_chunks-rejected [] r r' session h k =
      let same : r ≡ r' = ground arith in
      subst (λ (q : Read). has session q.rejected ≡ true) same (ground arith)
  read_chunks-rejected (requests ∷ chunks) r r' session h k =
      elim (Outcome-cases (take_answer answer requests (answer requests) r)) [
        | inr (x, e) ↦ absurd (ground (arith, e))
        | inl (q, e) ↦
            read_chunks-rejected chunks q r' session (rw (e, read_chunks) at h)
              (ground (arith, take_answer-rejected requests (answer requests) r q session e))
      ]

-- A coordinate of a rejected session holds nothing.
pub cleared :
    (names : ℕ → Bool) (gone : List ℕ) (cs : List Coordinate)
    → ((session : ℕ) → names session ≡ true → has session gone ≡ true)
    → All (λ (c : Coordinate). own_document c ≡ true) cs
    → All (λ (c : Coordinate). (names c.session && holds c) ≡ false) (clear_rejected gone cs)
unfolding clear_rejected
cleared names gone [] h v = tt
cleared names gone (c ∷ cs) h (own, later) =
    (ground (arith, own, h c.session), cleared names gone cs h later)
