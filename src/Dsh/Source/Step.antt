-- ===== src/Dsh/Source/Step.antt =====
-- The source as a whole: its calls, the live notifications and the segments of its tasks, in any order. An
-- event that the state does not wait for changes nothing.
pub mod Invariant
pub mod Quiet
pub mod Failure
pub mod Closing
pub mod Kept
pub mod Counts
pub mod Ranges
pub mod Commands
pub mod Preserved
pub mod Promises
use qq_index.Prelude.{
  ℕ, suc, ◌+◌, ◌-◌, Bool, true, false, not, ◌&&◌, ◌||◌, Option, none, some, List, [], ◌∷◌, ◌++◌,
  ltb, leb, length, if◌then◌else◌, Outcome, ok, err,
}
use qq_index.Dsh.Errors.{SourceError}
use qq_index.Dsh.Decimal.{Numeric}
use qq_index.Dsh.Session.{Document, Durable, Inspection}
use qq_index.Dsh.Source.{
  Source, SourcePhase, TaskKind, Loop, Progress, Notification, corpus_sync, drain, subscribing,
  paused, closing, closed, scan, listing_sessions, reading_states, reading_session, applying,
  is_empty, record_failure, on_live,
}
use qq_index.Dsh.Source.Task.{fail, begin, listed, states_read, session_read, applied}

pub data Event : Type 0 where
  start_called sync_called pause_called close_called : Event
  dependencies_ready : Outcome SourceError (Unit {0}) → Event
  pause_waits close_waits pause_finished close_finished : Event
  notified : Notification → Event
  task_begins : Event
  sessions_listed : Outcome SourceError (List ℕ) → Event
  states_answered : Outcome SourceError (Numeric × List (ℕ × Durable)) → Event
  log_read : Outcome SourceError (Option Inspection × Outcome SourceError (List Document)) → Event
  batch_answered : Outcome SourceError Numeric → Event

-- Whether the first so many tasks that the tail was given are over. The tasks end in the order in which they come.
abbrev pub are_over : ℕ → Source → Bool
are_over tasks s =
    leb (tasks + (length s.queue + (elim s.running [ none ↦ 0 | some _ ↦ 1 ]))) s.appended

-- `start` up to its first `await`. A source that is started and not paused only waits for its tasks.
unfoldable pub start : Source → Source
start s = if s.is_closed || (s.started && not s.is_paused) then s else record s {
  started = true;
  is_paused = false;
  last_error = none;
  aborted = false;
  phase = subscribing;
  starts = s.starts + 1;
}

unfoldable pub enqueue : TaskKind → Source → Source
enqueue task s = record s { queue = s.queue ++ (task ∷ []); appended = s.appended + 1 }

-- `start` behind `#ensureDependenciesAndSubscription`.
unfoldable pub ready_to_start : Outcome SourceError (Unit {0}) → Source → Source
unfolding enqueue record_failure
ready_to_start (ok _) s = enqueue corpus_sync (record s { subscribed = true })
ready_to_start (err e) s = record_failure e s

unfoldable pub finish_start : Outcome SourceError (Unit {0}) → Source → Source
unfolding ready_to_start
finish_start outcome s =
    if ltb 0 s.starts then ready_to_start outcome (record s { starts = s.starts - 1 }) else s

unfoldable pub sync : Source → Source
unfolding start enqueue
sync s =
    if s.is_closed
    then s
    else if not s.started || s.is_paused
    then start s
    else enqueue corpus_sync s

unfoldable pub pause : Source → Source
pause s =
    if s.is_closed || s.is_paused
    then s
    else record s { is_paused = true; aborted = true; subscribed = false; pausing = s.pausing + 1 }

-- The subscription is removed: `pause` waits for the tail of this moment.
unfoldable pub wait_pause : Source → Source
wait_pause s =
    if ltb 0 s.pausing
    then record s { pausing = s.pausing - 1; pauses = s.pauses ++ (s.appended ∷ []) }
    else s

-- The tasks that the first `pause` waits for are over; later ones may have come.
unfoldable pub end_pause : List ℕ → Source → Source
end_pause [] s = s
end_pause (tasks ∷ pauses) s =
    if are_over tasks s
    then (if s.is_closed
        then record s { pauses = pauses }
        else record s { phase = paused; pauses = pauses })
    else s

unfoldable pub finish_pause : Source → Source
unfolding end_pause
finish_pause s = end_pause s.pauses s

unfoldable pub close : Source → Source
close s = if s.is_closed then s else record s {
  is_closed = true;
  is_paused = true;
  phase = closing;
  aborted = true;
  subscribed = false;
  closings = s.closings + 1;
}

-- The subscription is removed: `close` waits for the tail of this moment.
unfoldable pub wait_close : Source → Source
wait_close s =
    if ltb 0 s.closings
    then record s { closings = s.closings - 1; closes = s.closes ++ (s.appended ∷ []) }
    else s

unfoldable pub end_close : List ℕ → Source → Source
end_close [] s = s
end_close (tasks ∷ closes) s =
    if are_over tasks s
    then record s { buffered = []; disposed = []; phase = closed; closes = closes }
    else s

-- The tasks that `close` waits for are over.
unfoldable pub finish_close : Source → Source
unfolding end_close
finish_close s = end_close s.closes s

unfoldable pub next_task : List TaskKind → Option Progress → Source → Source
unfolding begin
next_task (task ∷ queue) none s = begin task (record s { queue = queue })
next_task _ _ s = s

module _ (max_buffered max_documents max_bytes : ℕ) where
  -- The running task goes on. What it waited for fails with an error of the collaborator.
  unfoldable pub resume : Option Progress → Event → Source → Source
  unfolding listed states_read session_read applied fail
  resume (some listing_sessions) (sessions_listed outcome) s = listed outcome s
  resume (some (reading_states loop [] states sessions later)) event s = s
  resume (some (reading_states loop (chunk ∷ chunks) states sessions later))
        (states_answered (ok (value, found))) s =
      states_read loop chunks states sessions later value found s
  resume (some (reading_states loop (chunk ∷ chunks) states sessions later))
        (states_answered (err e)) s =
      fail loop e s
  resume (some (reading_session loop states session rest later))
        (log_read (ok (inspection, projected))) s =
      session_read max_documents max_bytes loop states session rest later inspection projected s
  resume (some (reading_session loop states session rest later)) (log_read (err e)) s =
      fail loop e s
  resume (some (applying loop states batch batches rest later)) (batch_answered (ok value)) s =
      applied loop states batch batches rest later value s
  resume (some (applying loop states batch batches rest later)) (batch_answered (err e)) s =
      fail loop e s
  resume _ _ s = s

  unfoldable pub step : Source → Event → Source
  unfolding start finish_start sync pause wait_pause finish_pause close wait_close finish_close
      next_task resume on_live
  step s start_called = start s
  step s sync_called = sync s
  step s pause_called = pause s
  step s close_called = close s
  step s (dependencies_ready outcome) = finish_start outcome s
  step s pause_waits = wait_pause s
  step s close_waits = wait_close s
  step s pause_finished = finish_pause s
  step s close_finished = finish_close s
  step s (notified notification) = on_live max_buffered notification s
  step s task_begins = next_task s.queue s.running s
  step s event = resume s.running event s

  unfoldable pub run : Source → List Event → Source
  run s [] = s
  run s (event ∷ events) = run (step s event) events
