-- ===== src/Dsh/Tests.antt =====
-- Runs of src/session-index-dsh-source.mjs's parts on small inputs.
use qq_index.Prelude.{ℕ, ◌+◌, ◌≤◌, ◌≡◌, refl, List, [], ◌∷◌, flatten, arith, length, All, ok}
use qq_index.Dsh.Decimal.{decimal, parse_unsigned, text, bigint}
use qq_index.Dsh.Decimal.RoundTrip.{parse_unsigned-decimal}
use qq_index.Dsh.Chunks.{chunk_documents}
use qq_index.Dsh.Chunks.Batches.{array_bytes, flatten-chunk_documents}
use qq_index.Dsh.Chunks.Bounds.{chunk_documents_bounds, chunk_documents_overshoot}

-- Documents that stand for their own size.
abbrev own_size : ℕ → ℕ
own_size n = n

abbrev three : List ℕ
three = 600 ∷ 300 ∷ 700 ∷ []

abbrev two_chunks : List (List ℕ)
two_chunks = (600 ∷ 300 ∷ []) ∷ (700 ∷ []) ∷ []

three_chunked : chunk_documents own_size 2 1024 three ≡ ok two_chunks
unfolding chunk_documents
three_chunked = refl

flatten-chunk_documents_example : flatten two_chunks ≡ three
flatten-chunk_documents_example =
    flatten-chunk_documents own_size 2 1024 three two_chunks three_chunked

chunk_documents_bounds_example :
    All (λ chunk. (length chunk ≤ 2) × (array_bytes own_size chunk ≤ 1024 + 1)) two_chunks
chunk_documents_bounds_example =
    chunk_documents_bounds own_size 2 1024 three two_chunks (omega arith) (omega arith)
      three_chunked

chunk_documents_overshoot_example :
    (chunk_documents own_size 2 1024 (1023 ∷ []) ≡ ok ([] ∷ (1023 ∷ []) ∷ []))
    × (array_bytes own_size (1023 ∷ []) ≡ 1024 + 1)
chunk_documents_overshoot_example =
    chunk_documents_overshoot own_size 2 1024 1023 (omega arith) refl

parse_unsigned-decimal_example :
    (parse_unsigned (text (decimal 1024)) ≡ ok 1024) × (parse_unsigned (bigint 1024) ≡ ok 1024)
parse_unsigned-decimal_example = parse_unsigned-decimal 1024 (omega arith)

text_ten : parse_unsigned (text (49 ∷ 48 ∷ [])) ≡ ok 10
unfolding parse_unsigned
text_ten = refl
