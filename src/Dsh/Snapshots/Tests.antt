-- ===== src/Dsh/Snapshots/Tests.antt =====
-- Runs of the exact reads on small inputs.
use qq_index.Prelude.{ℕ, ◌≡◌, refl, true, some, List, [], ◌∷◌, flatten, All, ok, length}
use qq_index.Dsh.Source.{has}
use qq_index.Dsh.Snapshots.{
  Request, SnapshotDocument, Settlement, rejected, fulfilled, Parsed, grouped_snapshot_chunks,
  validate_snapshot_settlements,
}
use qq_index.Dsh.Snapshots.Coverage.{times, pairs_of, calls_complete}
use qq_index.Dsh.Snapshots.Settlements.{Asked, settlements-Asked}

abbrev work : List (ℕ × ℕ)
work = (1, 10) ∷ (2, 4) ∷ (1, 12) ∷ []

abbrev requests : List Request
requests = record { session = 1; seqs = 10 ∷ 12 ∷ [] } ∷ record { session = 2; seqs = 4 ∷ [] } ∷ []

work_grouped : grouped_snapshot_chunks work ≡ requests ∷ []
unfolding grouped_snapshot_chunks
work_grouped = refl

calls_complete_example :
    times 1 12 (pairs_of (flatten (grouped_snapshot_chunks work))) ≡ times 1 12 work
calls_complete_example = calls_complete 1 12 work

abbrev twelfth : SnapshotDocument
twelfth = record { shape = true; session = 1; seq = 12; time = 77; text = 97 ∷ [] }

abbrev response : List Settlement
response = fulfilled true true 1 1 (twelfth ∷ []) (some (ok (84 ∷ []))) ∷ rejected true 2 ∷ []

abbrev parsed : Parsed
parsed = record {
  documents = (1, twelfth) ∷ [];
  titles = (1, 84 ∷ []) ∷ [];
  rejected_sessions = 2 ∷ [];
}

settlements-Asked_example :
    (length response ≡ length requests) × All (Asked requests) parsed.documents
unfolding validate_snapshot_settlements has
settlements-Asked_example = settlements-Asked response requests parsed refl
