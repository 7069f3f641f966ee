-- ===== src/Dsh/Snapshots.antt =====
-- The exact reads of src/session-index-dsh-source.mjs: `groupedSnapshotChunks` and
-- `validateSnapshotSettlements`. A session is a number, as the code only compares it.
pub mod Requests
pub mod Coverage
pub mod Settlements
pub mod Rejections
mod Tests
use qq_index.Prelude.{
  ℕ, zero, suc, ◌+◌, ◌-◌, Bool, true, false, not, ◌&&◌, ◌||◌, Option, none, some, List, [], ◌∷◌,
  ◌++◌, ltb, leb, ◌==◌, if◌then◌else◌, length, take, drop, Outcome, ok, err, ◌>>=◌, ◌>>◌, require,
}
use qq_index.Dsh.Errors.{SourceError}
use qq_index.Dsh.Decimal.{max_safe_integer}
use qq_index.Dsh.Source.{has}

-- `MAX_SNAPSHOT_GROUPS` and `MAX_SNAPSHOT_COORDINATES`
abbrev pub max_groups : ℕ
max_groups = 256

abbrev pub max_coordinates : ℕ
max_coordinates = 256

pub record Request : Type 0 where
  pub session : ℕ
  pub seqs : List ℕ

-- One coordinate joins the group of its session; a map keeps the order of its keys.
pub add_coordinate : ℕ → ℕ → List Request → List Request
add_coordinate session seq [] = record { session = session; seqs = seq ∷ [] } ∷ []
add_coordinate session seq (g ∷ gs) =
    let later = add_coordinate session seq gs in
    if g.session == session then record g { seqs = g.seqs ++ (seq ∷ []) } ∷ gs else g ∷ later

pub by_session : List (ℕ × ℕ) → List Request → List Request
unfolding add_coordinate
by_session [] groups = groups
by_session ((session, seq) ∷ work) groups = by_session work (add_coordinate session seq groups)

-- The variables of the loop over the sessions.
pub record Grouping : Type 0 where
  pub chunks : List (List Request)
  pub current : List Request
  pub coordinates : ℕ

flush_current : List (List Request) → List Request → ℕ → Grouping
flush_current chunks [] n = record { chunks = chunks; current = []; coordinates = n }
flush_current chunks (r ∷ rs) n = record {
  chunks = chunks ++ ((r ∷ rs) ∷ []);
  current = [];
  coordinates = 0;
}

pub flush : Grouping → Grouping
unfolding flush_current
flush g = flush_current g.chunks g.current g.coordinates

-- The full slices of a large session, each a chunk of its own, and the offset where they end.
pub full_slices :
    (fuel session : ℕ) (seqs : List ℕ) (offset : ℕ) → List (List Request) → List (List Request) × ℕ
full_slices zero session seqs offset chunks = (chunks, offset)
full_slices (suc fuel) session seqs offset chunks =
    let later = full_slices fuel session seqs (offset + max_coordinates) (
      chunks
      ++ ((record { session = session; seqs = take max_coordinates (drop offset seqs) } ∷ [])
          ∷ [])) in
    if ltb max_coordinates (length seqs - offset) then later else (chunks, offset)

pub split_large : Request → Grouping → Grouping
unfolding full_slices
split_large r g =
    let (chunks, offset) = full_slices (length r.seqs) r.session r.seqs 0 g.chunks in
    if ltb offset (length r.seqs)
    then record {
      chunks = chunks;
      current = g.current ++ (record { session = r.session; seqs = drop offset r.seqs } ∷ []);
      coordinates = length r.seqs - offset;
    }
    else record g { chunks = chunks }

pub push : Request → Grouping → Grouping
push r g = record g { current = g.current ++ (r ∷ []); coordinates = g.coordinates + length r.seqs }

-- One round of the loop.
pub place_group : Request → Grouping → Grouping
unfolding split_large push flush
place_group r g =
    if ltb max_coordinates (length r.seqs)
    then split_large r (flush g)
    else if leb max_groups (length g.current) || ltb max_coordinates (g.coordinates + length r.seqs)
    then push r (flush g)
    else push r g

pub place_groups : List Request → Grouping → Grouping
unfolding place_group
place_groups [] g = g
place_groups (r ∷ rs) g = place_groups rs (place_group r g)

-- The work is a list of coordinates, each a session and a number in the range of safe integers.
unfoldable pub grouped_snapshot_chunks : List (ℕ × ℕ) → List (List Request)
unfolding by_session place_groups flush
grouped_snapshot_chunks work =
    (flush (
      place_groups (by_session work [])
        (record { chunks = []; current = []; coordinates = 0 }))).chunks

-- A document of a snapshot. `shape` is what the checks of its fields' presence, types and string
-- lengths find.
pub record SnapshotDocument : Type 0 where
  pub shape : Bool
  pub session : ℕ
  pub seq : ℕ
  pub time : ℕ
  pub text : List ℕ

-- A settlement. `shape` and `header` are what the checks of the record's and the header's fields find, `title`
-- what `validateAndFormatSnapshotTitle` returns or throws, if there is a title.
pub data Settlement : Type 0 where
  rejected : (shape : Bool) → (session : ℕ) → Settlement
  fulfilled :
      (shape header : Bool)
      → (session header_session : ℕ) → List SnapshotDocument
      → Option (Outcome SourceError (List ℕ))
      → Settlement
  other_status : (session : ℕ) → Settlement

pub record Parsed : Type 0 where
  pub documents : List (ℕ × SnapshotDocument)
  pub titles : List (ℕ × List ℕ)
  pub rejected_sessions : List ℕ

-- The loop over the documents of a settlement; `previous` is the number after `previousSeq`.
pub validate_documents :
    Request → ℕ → List SnapshotDocument → Outcome SourceError (List (ℕ × SnapshotDocument))
unfolding has
validate_documents r previous [] = ok []
validate_documents r previous (d ∷ ds) =
    require (d.shape && (d.session == r.session && leb d.seq max_safe_integer))
      SourceError.malformed
    >> (require (has d.seq r.seqs) SourceError.malformed
        >> (require (leb previous d.seq) SourceError.malformed
            >> (validate_documents r (suc d.seq) ds >>= λ later. ok ((r.session, d) ∷ later))))

validate_title : ℕ → Option (Outcome SourceError (List ℕ)) → Outcome SourceError (List (ℕ × List ℕ))
validate_title session none = ok []
validate_title session (some (ok title)) = ok ((session, title) ∷ [])
validate_title session (some (err e)) = err e

pub validate_settlement : Request → Settlement → Outcome SourceError Parsed
unfolding validate_documents validate_title
validate_settlement r (rejected shape session) = do
  require (session == r.session) SourceError.malformed
  require shape SourceError.malformed
  ok (record { documents = []; titles = []; rejected_sessions = r.session ∷ [] })
validate_settlement r (fulfilled shape header session header_session found title) = do
  require (session == r.session) SourceError.malformed
  require (shape && (header && header_session == r.session)) SourceError.malformed
  require (leb (length found) (length r.seqs) && leb (length found) max_coordinates)
      SourceError.malformed
  documents ← validate_documents r 0 found
  titles ← validate_title r.session title
  ok (record { documents = documents; titles = titles; rejected_sessions = [] })
validate_settlement r (other_status session) = err SourceError.malformed

join : Parsed → Parsed → Parsed
join p q = record {
  documents = p.documents ++ q.documents;
  titles = p.titles ++ q.titles;
  rejected_sessions = p.rejected_sessions ++ q.rejected_sessions;
}

-- Settlement by settlement, in the order of the requests.
pub validate_all : List Settlement → List Request → Outcome SourceError Parsed
unfolding validate_settlement join
validate_all [] requests = ok (record { documents = []; titles = []; rejected_sessions = [] })
validate_all (s ∷ ss) [] = err SourceError.malformed
validate_all (s ∷ ss) (r ∷ rs) = do
  parsed ← validate_settlement r s
  later ← validate_all ss rs
  ok (join parsed later)

unfoldable pub validate_snapshot_settlements :
    List Settlement → List Request → Outcome SourceError Parsed
unfolding validate_all
validate_snapshot_settlements response requests =
    require (length response == length requests && leb (length response) max_groups)
      SourceError.malformed
    >> validate_all response requests
