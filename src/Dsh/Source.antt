-- ===== src/Dsh/Source.antt =====
-- `DshSessionIndexSource` of src/session-index-dsh-source.mjs. A session is named by a number. The methods that no
-- `await` interrupts are here; `Dsh.Source.Task` has the segments of the queued tasks, and
-- `Dsh.Source.Step` joins both with the calls of the service in any order.
pub mod Task
pub mod Step
mod Tests
use qq_index.Prelude.{
  ℕ, ◌+◌, min, Bool, true, false, not, ◌&&◌, ◌||◌, Option, none, some, List, [], ◌∷◌, ◌++◌, ltb,
  leb, ◌==◌, if◌then◌else◌, length, Outcome, ok, err, ◌>>=◌,
}
use qq_index.Dsh.Errors.{
  SourceError, source_closed, source_paused, queue_overflow, watermark_backwards,
}
use qq_index.Dsh.Decimal.{Numeric, parse_unsigned, max_safe_integer}
use qq_index.Dsh.Session.{Document, Durable}

pub data SourcePhase : Type 0 where
  idle subscribing listing scanning draining live paused error closing closed : SourcePhase

pub data TaskKind : Type 0 where
  corpus_sync drain : TaskKind

-- The loop that a session is synchronised in: the scan of the corpus, the drain at its end, or the drain of
-- a task of its own.
pub data Loop : Type 0 where
  scan corpus_drain task_drain : Loop

-- Where the running task waits: for the listing, for the durable states of the first of `chunks`, for the
-- log of a session, or for the receipt of a batch. `later` are the chunks of the drain whose
-- states are still to be read.
pub data Progress : Type 0 where
  listing_sessions : Progress
  reading_states :
      Loop
      → (chunks : List (List ℕ)) → List (ℕ × Durable)
      → (sessions : List ℕ) → (later : List (List ℕ)) → Progress
  reading_session :
      Loop
      → List (ℕ × Durable)
      → (session : ℕ) → (rest : List ℕ) → (later : List (List ℕ)) → Progress
  applying :
      Loop
      → List (ℕ × Durable)
      → List Document
      → List (List Document)
      → (rest : List ℕ) → (later : List (List ℕ)) → Progress

-- `queue` are the tasks behind the one that runs, and `appended` is how many tasks the tail has been given. `starts`,
-- `pausing` and `closings` are the calls that wait for a subscription, `pauses` and `closes` those that wait for the
-- tail, each with how many tasks it waits for.
pub record Source : Type 0 where
  pub phase : SourcePhase
  pub sessions_scanned : ℕ
  pub events_committed : ℕ
  pub documents_committed : ℕ
  pub watermark : ℕ
  pub last_error : Option SourceError
  pub buffered : List ℕ
  pub disposed : List ℕ
  pub drain_scheduled : Bool
  pub started : Bool
  pub is_paused : Bool
  pub is_closed : Bool
  pub aborted : Bool
  pub subscribed : Bool
  pub queue : List TaskKind
  pub running : Option Progress
  pub appended : ℕ
  pub starts : ℕ
  pub pausing : ℕ
  pub pauses : List ℕ
  pub closings : ℕ
  pub closes : List ℕ

abbrev pub init : Source
init = record {
  phase = idle;
  sessions_scanned = 0;
  events_committed = 0;
  documents_committed = 0;
  watermark = 0;
  last_error = none;
  buffered = [];
  disposed = [];
  drain_scheduled = false;
  started = false;
  is_paused = false;
  is_closed = false;
  aborted = false;
  subscribed = false;
  queue = [];
  running = none;
  appended = 0;
  starts = 0;
  pausing = 0;
  pauses = [];
  closings = 0;
  closes = [];
}

abbrev pub is_live : SourcePhase → Bool
is_live live = true
is_live _ = false

abbrev pub is_empty {ℓ} : {A : Type ℓ} → List A → Bool
is_empty [] = true
is_empty (x ∷ xs) = false

unfoldable pub has : ℕ → List ℕ → Bool
has x [] = false
has x (y ∷ ys) = (x == y) || has x ys

unfoldable pub without : ℕ → List ℕ → List ℕ
without x [] = []
without x (y ∷ ys) = if x == y then without x ys else y ∷ without x ys

-- `incrementCounter`
unfoldable pub increment : ℕ → ℕ → ℕ
increment counter amount = min max_safe_integer (counter + amount)

unfoldable pub record_failure : SourceError → Source → Source
record_failure e s = record s {
  is_paused = true;
  aborted = true;
  phase = error;
  last_error = some e;
  subscribed = false;
}

unfoldable pub assert_active : Source → Outcome SourceError (Unit {0})
assert_active s =
    if s.is_closed
    then err source_closed
    else if s.is_paused || s.aborted
    then err source_paused
    else ok tt

unfoldable pub observe_watermark : Numeric → Source → Outcome SourceError Source
observe_watermark value s = do
  observed ← parse_unsigned value
  if ltb observed s.watermark
      then err watermark_backwards
      else ok (record s { watermark = observed })

unfoldable pub schedule_drain : Source → Source
schedule_drain s = if s.drain_scheduled || (s.is_closed || s.is_paused) then s else record s {
  drain_scheduled = true;
  queue = s.queue ++ (drain ∷ []);
  appended = s.appended + 1;
}

-- A live notification: of a disposal or of another topic, for a session; none if it is malformed.
pub data Notification : Type 0 where
  session_disposed session_changed : ℕ → Notification
  malformed_notification : Notification

module _ (maximum : ℕ) where
  -- `#addBounded`: the new set, or none if it overflows.
  unfoldable pub add_bounded : ℕ → List ℕ → Option (List ℕ)
  add_bounded session set =
      if has session set
      then some set
      else if leb maximum (length set)
      then none
      else some (set ++ (session ∷ []))

  unfoldable pub changed : Option (List ℕ) → Source → Source
  unfolding record_failure schedule_drain
  changed none s = record_failure queue_overflow s
  changed (some buffered) s =
      if is_live s.phase
      then schedule_drain (record s { buffered = buffered })
      else record s { buffered = buffered }

  unfoldable pub gone : Option (List ℕ) → Source → Source
  unfolding record_failure
  gone none s = record_failure queue_overflow s
  gone (some disposed) s = record s { disposed = disposed }

  unfoldable pub on_live : Notification → Source → Source
  unfolding changed gone add_bounded record_failure
  on_live (session_disposed session) s =
      if s.is_closed || s.is_paused then s else gone (add_bounded session s.disposed) s
  on_live (session_changed session) s =
      if s.is_closed || s.is_paused then s else changed (add_bounded session s.buffered) s
  on_live malformed_notification s =
      if s.is_closed || s.is_paused then s else record_failure SourceError.malformed s
