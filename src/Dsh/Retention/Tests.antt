-- ===== src/Dsh/Retention/Tests.antt =====
-- A verification of one search result.
use qq_index.Prelude.{ℕ, some, [], ◌∷◌}
use qq_index.Dsh.Decimal.{number}
use qq_index.Dsh.Retention.{Observed, Candidate, Verified}

abbrev found : Observed
found = record {
  key = record { session = 5; query_ordinal = 0; seq = 12; document_key = 8 };
  source_rank = 3;
  snippet = 97 ∷ [];
}

-- The second candidate states a rank that was not observed.
abbrev candidate : ℕ → Candidate
candidate rank = record {
  session = 5;
  contributions =
      record { query_ordinal = 0; source_rank = rank; seq = number 12; document_key = 8 } ∷ [];
  title = some (88 ∷ []);
}

abbrev result : Verified
result = record {
  candidates =
      record {
        session = 5;
        contributions =
            record { query_ordinal = 0; source_rank = 3; seq = number 12; document_key = 8 } ∷ [];
        title = some (84 ∷ []);
        evidence = found ∷ [];
      }
      ∷ [];
  evidence = found ∷ [];
}
