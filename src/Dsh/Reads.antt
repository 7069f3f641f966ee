-- ===== src/Dsh/Reads.antt =====
-- The references and the grouped reads of `verifyDshSearchCandidates` of src/session-index-dsh-source.mjs. A signal that
-- aborts ends the whole verification at any point, and is left out.
pub mod Rejections
pub mod FailClosed
mod Tests
use qq_index.Prelude.{
  ℕ, Bool, true, false, not, ◌&&◌, ◌||◌, Option, none, some, List, [], ◌∷◌, ◌++◌, leb, ◌==◌,
  if◌then◌else◌, length, Outcome, ok, err, ◌>>=◌, ◌>>◌, require,
}
use qq_index.Dsh.Errors.{SourceError}
use qq_index.Dsh.Decimal.{Numeric, parse_unsigned, max_safe_integer}
use qq_index.Dsh.Source.{has}
use qq_index.Dsh.Snapshots.{
  Request, SnapshotDocument, Settlement, Parsed, grouped_snapshot_chunks,
  validate_snapshot_settlements,
}

-- A contribution of a fused candidate; `shape` is what the checks of its fields and texts find.
pub record RawContribution : Type 0 where
  pub shape : Bool
  pub query_ordinal : ℕ
  pub source_rank : ℕ
  pub document_key : ℕ
  pub seq : Numeric

pub record RawCandidate : Type 0 where
  pub shape : Bool
  pub session : ℕ
  pub contributions : List RawContribution

-- What a fused candidate refers to, with the source hit that it names.
pub record Reference : Type 0 where
  pub query_ordinal : ℕ
  pub source_rank : ℕ
  pub session : ℕ
  pub document_key : ℕ
  pub seq : ℕ

pub references_of : ℕ → List RawContribution → Outcome SourceError (List Reference)
references_of session [] = ok []
references_of session (c ∷ cs) = do
  require (c.shape && (leb c.query_ordinal 4 && (leb 1 c.source_rank && leb c.source_rank 100)))
      SourceError.malformed
  seq ← parse_unsigned c.seq
  later ← references_of session cs
  ok (
      record {
        query_ordinal = c.query_ordinal;
        source_rank = c.source_rank;
        session = session;
        document_key = c.document_key;
        seq = seq;
      }
      ∷ later)

pub fused_references : List RawCandidate → Outcome SourceError (List Reference)
unfolding references_of
fused_references [] = ok []
fused_references (c ∷ cs) = do
  require (c.shape && (leb 1 (length c.contributions) && leb (length c.contributions) 5))
      SourceError.malformed
  here ← references_of c.session c.contributions
  later ← fused_references cs
  ok (here ++ later)

-- A ranked hit with its evidence.
pub record Hit : Type 0 where
  pub session : ℕ
  pub evidence_session : ℕ
  pub document_key : ℕ

-- `fusedReferenceMatchesHit`, among the references to the hit's place.
pub reference_matches : Reference → Hit → ℕ → Bool
reference_matches r hit seq =
    hit.session == r.session
    && (hit.evidence_session == r.session && (hit.document_key == r.document_key && seq == r.seq))

-- A coordinate and the document that was read for it.
pub record Coordinate : Type 0 where
  pub session : ℕ
  pub seq : ℕ
  pub document : Option SnapshotDocument

pub pairs_to_read : List Coordinate → List (ℕ × ℕ)
pairs_to_read [] = []
pairs_to_read (c ∷ cs) =
    let later = pairs_to_read cs in
    if leb c.seq max_safe_integer then (c.session, c.seq) ∷ later else later

-- The document goes to its coordinate, or is refused.
pub set_document : ℕ → SnapshotDocument → List Coordinate → Outcome SourceError (List Coordinate)
set_document session d [] = err SourceError.malformed
set_document session d (c ∷ cs) =
    let later = set_document session d cs >>= λ rest. ok (c ∷ rest) in
    if c.session == session && c.seq == d.seq
    then ok (record c { document = some d } ∷ cs)
    else later

pub set_documents :
    List (ℕ × SnapshotDocument) → List Coordinate → Outcome SourceError (List Coordinate)
unfolding set_document
set_documents [] cs = ok cs
set_documents ((session, d) ∷ ds) cs = set_document session d cs >>= λ rest. set_documents ds rest

-- `titlesBySession.delete`
pub delete_titles : List ℕ → List (ℕ × List ℕ) → List (ℕ × List ℕ)
unfolding has
delete_titles rejected [] = []
delete_titles rejected ((session, title) ∷ titles) =
    let later = delete_titles rejected titles in
    if has session rejected then later else (session, title) ∷ later

-- What a rejected session gave in another chunk is dropped.
pub clear_rejected : List ℕ → List Coordinate → List Coordinate
unfolding has
clear_rejected rejected [] = []
clear_rejected rejected (c ∷ cs) =
    (if has c.session rejected && leb c.seq max_safe_integer
      then record c { document = none }
      else c)
    ∷ clear_rejected rejected cs

pub record Read : Type 0 where
  pub coordinates : List Coordinate
  pub titles : List (ℕ × List ℕ)
  pub rejected : List ℕ

-- `answer` is what `readEventDocumentSnapshots` returns; none is a failure of the whole call, which is passed over.
module _ (answer : List Request → Option (List Settlement)) where
  pub take_answer : List Request → Option (List Settlement) → Read → Outcome SourceError Read
  unfolding set_documents
  take_answer requests none r = ok r
  take_answer requests (some response) r = do
    parsed ← validate_snapshot_settlements response requests
    coordinates ← set_documents parsed.documents r.coordinates
    ok (record {
      coordinates = coordinates;
      titles = parsed.titles ++ r.titles;
      rejected = r.rejected ++ parsed.rejected_sessions;
    })

  pub read_chunks : List (List Request) → Read → Outcome SourceError Read
  unfolding take_answer
  read_chunks [] r = ok r
  read_chunks (requests ∷ chunks) r =
      take_answer requests (answer requests) r >>= λ r'. read_chunks chunks r'

  unfoldable pub read_grouped : List Coordinate → Outcome SourceError Read
  unfolding read_chunks pairs_to_read clear_rejected delete_titles
  read_grouped work = do
    r ←
        read_chunks (grouped_snapshot_chunks (pairs_to_read work))
          (record { coordinates = work; titles = []; rejected = [] })
    ok (record {
      coordinates = clear_rejected r.rejected r.coordinates;
      titles = delete_titles r.rejected r.titles;
      rejected = r.rejected;
    })

-- Whether the coordinate holds a document.
abbrev pub holds : Coordinate → Bool
holds c = elim c.document [ none ↦ false | some d ↦ true ]

-- Whether the document is one of the coordinate's number, a safe integer.
abbrev pub own_document : Coordinate → Bool
own_document c = elim c.document [
  | none ↦ true
  | some d ↦ d.seq == c.seq && leb d.seq max_safe_integer
]
