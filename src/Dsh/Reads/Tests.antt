-- ===== src/Dsh/Reads/Tests.antt =====
-- A read of two sessions, one of which is rejected.
use qq_index.Prelude.{ℕ, ◌&&◌, ◌≡◌, refl, true, false, Option, none, some, List, [], ◌∷◌, All}
use qq_index.Dsh.Source.{has}
use qq_index.Dsh.Snapshots.{
  Request, SnapshotDocument, Settlement, fulfilled, rejected, grouped_snapshot_chunks,
  validate_snapshot_settlements,
}
use qq_index.Dsh.Reads.{Coordinate, Read, pairs_to_read, read_grouped, holds, own_document}
use qq_index.Dsh.Reads.Rejections.{rejected_in}
use qq_index.Dsh.Reads.FailClosed.{read_grouped_lem}

abbrev twelfth : SnapshotDocument
twelfth = record { shape = true; session = 1; seq = 12; time = 77; text = 97 ∷ [] }

abbrev answer : List Request → Option (List Settlement)
answer requests = some (fulfilled true true 1 1 (twelfth ∷ []) none ∷ rejected true 2 ∷ [])

abbrev wanted : ℕ → ℕ → Option SnapshotDocument → Coordinate
wanted session seq document = record { session = session; seq = seq; document = document }

abbrev result : Read
result = record {
  coordinates = wanted 1 12 (some twelfth) ∷ wanted 2 4 none ∷ [];
  titles = [];
  rejected = 2 ∷ [];
}

abbrev work : List Coordinate
work = wanted 1 12 none ∷ wanted 2 4 none ∷ []

read_grouped_example :
    All (λ (c : Coordinate). own_document c ≡ true) result.coordinates
    × All
        (λ (c : Coordinate).
          (rejected_in answer (grouped_snapshot_chunks (pairs_to_read work)) c.session && holds c)
          ≡ false)
        result.coordinates
unfolding read_grouped grouped_snapshot_chunks validate_snapshot_settlements has
read_grouped_example = read_grouped_lem answer work result (refl, (refl, tt)) refl
