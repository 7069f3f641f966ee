-- ===== src/Client/Accepted/Search.antt =====
-- src/session-index-client.mjs: what an accepted answer to a search says.
use Prim.Native.String.{String}
use qq_index.Prelude.{ℕ, ◌+◌, ◌≤◌, ◌≡◌, subst, true, List, [], ◌∷◌, length, All, ok, ◌>>◌, arith}
use qq_index.Client.Values.{Value, number, whole, elements, get, strict_equal}
use qq_index.Client.Checks.{
  Check, bounded_array, equal, boolean_value, exact_object, bounded_string, finite_number,
}
use qq_index.Client.Responses.{header}
use qq_index.Client.SearchResponses.{
  validate_verification, validate_ranked, validate_source, validate_fused, validate_search_response,
  validate_search_snapshot, each_entry, number_of,
}
use qq_index.Client.Accepted.Texts.{bounded_array_lem, equal_number, equal_lem}

-- The items' ranks count from `index`.
pub RankedFrom : (field : String) → (index : ℕ) → List Value → Type 0
RankedFrom field index [] = Unit {0}
RankedFrom field index (v ∷ vs) =
    (get field v ≡ number (whole index)) × RankedFrom field (index + 1) vs

-- A loop over entries promises for each what its check promises.
each_entry_lem :
    (field : String) (f : ℕ → Value → Check) (shift : ℕ)
    → ((n : ℕ) (v : Value) → f n v ≡ ok tt → get field v ≡ number (whole (n + shift)))
    → (index : ℕ) (vs : List Value) → each_entry f index vs ≡ ok tt
    → RankedFrom field (index + shift) vs
unfolding each_entry RankedFrom
each_entry_lem field f shift own index [] h = tt
each_entry_lem field f shift own index (v ∷ vs) h = (
  own index v (ground (arith, h)),
  subst (λ i. RankedFrom field i vs) (omega arith)
      (each_entry_lem field f shift own (index + 1) vs (ground (arith, h))),
)

each_entry-All :
    (P : Value → Type 0) (f : ℕ → Value → Check)
    → ((n : ℕ) (v : Value) → f n v ≡ ok tt → P v)
    → (index : ℕ) (vs : List Value) → each_entry f index vs ≡ ok tt
    → All P vs
unfolding each_entry
each_entry-All P f own index [] h = tt
each_entry-All P f own index (v ∷ vs) h =
    (own index v (ground (arith, h)), each_entry-All P f own (index + 1) vs (ground (arith, h)))

-- A ranked result has evidence of its own session.
pub Evident : Value → Type 0
Evident v = strict_equal (get "sessionId" (get "evidence" v)) (get "sessionId" v) ≡ true

ranked_rank :
    (n : ℕ) (v : Value) → validate_ranked n v ≡ ok tt → get "rank" v ≡ number (whole (n + 1))
unfolding validate_ranked
ranked_rank n v h = equal_number (get "rank" v) (n + 1) (ground (arith, h))

sixth_ok : (a b c d e f : Check) → (a >> (b >> (c >> (d >> (e >> f))))) ≡ ok tt → f ≡ ok tt
sixth_ok a b c d e f h = ground arith

ranked-Evident : (n : ℕ) (v : Value) → validate_ranked n v ≡ ok tt → Evident v
unfolding validate_ranked Evident
ranked-Evident n v h = equal_lem (get "sessionId" (get "evidence" v)) (get "sessionId" v) (
    sixth_ok (exact_object v ("rank" ∷ "sessionId" ∷ "score" ∷ "evidence" ∷ []) [])
      (equal (get "rank" v) (number (whole (n + 1)))) (bounded_string (get "sessionId" v) 1 128)
      (finite_number (get "score" v)) (validate_verification (get "evidence" v))
      (equal (get "sessionId" (get "evidence" v)) (get "sessionId" v)) h)

fused_rank :
    (n : ℕ) (v : Value) → validate_fused n v ≡ ok tt → get "rank" v ≡ number (whole (n + 1))
unfolding validate_fused
fused_rank n v h = equal_number (get "rank" v) (n + 1) (ground (arith, h))

-- A source answers at most `depth` results, ranked from 1, each with evidence of its own session.
pub SourceOf : (depth : ℕ) → Value → Type 0
SourceOf depth v =
    (length (elements (get "ranked" v)) ≤ depth)
    × (RankedFrom "rank" 1 (elements (get "ranked" v)) × All Evident (elements (get "ranked" v)))

source_ordinal :
    (depth n : ℕ) (v : Value)
    → validate_source depth n v ≡ ok tt
    → get "queryOrdinal" v ≡ number (whole (n + 0))
unfolding validate_source
source_ordinal depth n v h = equal_number (get "queryOrdinal" v) (n + 0) (ground (arith, h))

source_lem : (depth n : ℕ) (v : Value) → validate_source depth n v ≡ ok tt → SourceOf depth v
unfolding validate_source SourceOf
source_lem depth n v h =
    let sized : bounded_array (get "ranked" v) 0 depth ≡ ok tt = ground (arith, h) in
    let ranked : each_entry validate_ranked 0 (elements (get "ranked" v)) ≡ ok tt =
      ground (arith, h) in
    (
      (bounded_array_lem (get "ranked" v) 0 depth sized).1,
      (
        each_entry_lem "rank" validate_ranked 1 ranked_rank 0 (elements (get "ranked" v)) ranked,
        each_entry-All Evident validate_ranked ranked-Evident 0 (elements (get "ranked" v)) ranked,
      ),
    )

le_antisym : (a b : ℕ) → a ≤ b → b ≤ a → a ≡ b
le_antisym a b h k = omega (arith, h, k)

search_ok :
    (a b c d e f g : Check)
    → (a >> (b >> (c >> (d >> (e >> (f >> g)))))) ≡ ok tt
    → (c ≡ ok tt) × ((d ≡ ok tt) × ((e ≡ ok tt) × (f ≡ ok tt)))
search_ok a b c d e f g h = (ground arith, (ground arith, (ground arith, ground arith)))

-- An accepted answer has one source for each literal, in the order of the literals; each source answers at most as
-- many results as were asked for, ranked from 1, each with evidence of its own session; and the fused results are
-- ranked from 1, at most as many as were asked for.
pub search_response_lem :
    (response request : Value)
    → validate_search_response response request ≡ ok tt
    → ((length (elements (get "sources" response)) ≡ length (elements (get "literals" request)))
        × (RankedFrom "queryOrdinal" 0 (elements (get "sources" response))
            × All
                (SourceOf (number_of (get "perSourceDepth" request)))
                (elements (get "sources" response))))
      × ((length (elements (get "fused" response)) ≤ number_of (get "finalLimit" request))
          × RankedFrom "rank" 1 (elements (get "fused" response)))
unfolding validate_search_response
search_response_lem response request h =
    let asked = length (elements (get "literals" request)) in
    let depth = number_of (get "perSourceDepth" request) in
    let limit = number_of (get "finalLimit" request) in
    let names = "type" ∷ "version" ∷ "snapshot" ∷ "sources" ∷ "fused" ∷ "fusedTruncated" ∷ [] in
    let sources = elements (get "sources" response) in
    let fused = elements (get "fused" response) in
    let (sized, (sourced, (limited, ranked))) =
      search_ok (header response names "searchBatch" "search-batch-response-v1")
        (validate_search_snapshot (get "snapshot" response))
        (bounded_array (get "sources" response) asked asked)
        (each_entry (validate_source depth) 0 sources)
        (bounded_array (get "fused" response) 0 limit) (each_entry validate_fused 0 fused)
        (boolean_value (get "fusedTruncated" response)) h in
    let bounds = bounded_array_lem (get "sources" response) asked asked sized in
    (
      (
        le_antisym (length sources) asked bounds.1 bounds.0,
        (
          each_entry_lem "queryOrdinal" (validate_source depth) 0 (source_ordinal depth) 0 sources
              sourced,
          each_entry-All (SourceOf depth) (validate_source depth) (source_lem depth) 0 sources
              sourced,
        ),
      ),
      (
        (bounded_array_lem (get "fused" response) 0 limit limited).1,
        each_entry_lem "rank" validate_fused 1 fused_rank 0 fused ranked,
      ),
    )
