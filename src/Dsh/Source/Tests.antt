-- ===== src/Dsh/Source/Tests.antt =====
-- Runs of the DSH source on short sequences of events.
use qq_index.Prelude.{
  ℕ, ◌≤◌, ◌≡◌, ◌⊎◌, refl, true, false, some, none, List, [], ◌∷◌, ◌++◌, ok, err, length, flatten,
  drop,
}
use qq_index.Dsh.Decimal.{number, parse_unsigned}
use qq_index.Dsh.Chunks.{chunk_documents}
use qq_index.Dsh.Session.{Document, Durable, Inspection, sync_session, durable_next}
use qq_index.Dsh.Session.Resume.{sync_session_resumes, fast_path_agrees}
use qq_index.Dsh.Source.{
  Source, paused, listing_sessions, init, has, session_changed, malformed_notification, scanning,
  is_live,
}
use qq_index.Dsh.Source.Step.{
  Event, pause_called, pause_waits, pause_finished, start_called, dependencies_ready, notified,
  task_begins, close_called, sessions_listed, states_answered, log_read, batch_answered, step, run,
}
use qq_index.Dsh.Source.Step.Invariant.{queues_drain, runs_drain}
use qq_index.Dsh.Source.Step.Promises.{drain_pending}
use qq_index.Dsh.Errors.{SourceError}
use qq_index.Dsh.Source.Step.Failure.{failure_hidden}
use qq_index.Dsh.Source.Step.Quiet.{is_applying}
use qq_index.Dsh.Source.Step.Closing.{closed_final}
use qq_index.Dsh.Source.Step.Counts.{Counts}
use qq_index.Dsh.Source.Step.Ranges.{run-Counts}

abbrev document : ℕ → Document
document seq = record { session = 5; seq = seq; workspace = 1; json_bytes = 100 }

abbrev log : List Document
log = document 0 ∷ document 1 ∷ document 2 ∷ []

-- The scan of one session, whose three documents go out in two batches.
abbrev scan_events : List Event
scan_events =
    start_called
    ∷ dependencies_ready (ok tt)
    ∷ task_begins
    ∷ sessions_listed (ok (5 ∷ []))
    ∷ states_answered (ok (number 3, []))
    ∷ log_read (ok (none, ok log))
    ∷ batch_answered (ok (number 4))
    ∷ batch_answered (ok (number 5))
    ∷ []

abbrev after_scan : Source
after_scan = run 8 2 1024 init scan_events

after_scan_live : is_live after_scan.phase ≡ true
unfolding run step parse_unsigned chunk_documents
after_scan_live = refl

after_scan_count : after_scan.documents_committed ≡ 3
unfolding run step parse_unsigned chunk_documents
after_scan_count = refl

abbrev live_events : List Event
live_events = scan_events ++ (notified (session_changed 7) ∷ [])

abbrev waiting : Source
waiting = run 8 2 1024 init live_events

drain_pending_example : (queues_drain waiting.queue ≡ true) ⊎ (runs_drain waiting.running ≡ true)
unfolding run step parse_unsigned chunk_documents has
drain_pending_example = drain_pending 8 2 1024 live_events refl refl refl refl

run-Counts_example : Counts 8 after_scan
run-Counts_example = run-Counts 8 2 1024 scan_events

-- Closed while a log is read.
abbrev closing_events : List Event
closing_events =
    start_called
    ∷ dependencies_ready (ok tt)
    ∷ task_begins
    ∷ sessions_listed (ok (5 ∷ []))
    ∷ states_answered (ok (number 3, []))
    ∷ close_called
    ∷ []

abbrev closed_early : Source
closed_early = run 8 2 1024 init closing_events

abbrev late_events : List Event
late_events = log_read (ok (none, ok log)) ∷ []

closed_final_example :
    ((run 8 2 1024 closed_early late_events).is_closed ≡ true)
    × (is_applying (run 8 2 1024 closed_early late_events).running ≡ false)
    × ((run 8 2 1024 closed_early late_events).events_committed ≡ closed_early.events_committed)
    × ((run 8 2 1024 closed_early late_events).documents_committed
        ≡ closed_early.documents_committed)
unfolding run step parse_unsigned
closed_final_example = closed_final 8 2 1024 late_events closed_early refl refl

abbrev durable : Durable
durable = record { next_seq = number 1; workspace = 1 }

sync_session_resumes_example :
    (next : ℕ) × (durable_next (some durable) ≡ ok next)
    × (next ≤ length log)
    × (flatten ((document 1 ∷ document 2 ∷ []) ∷ []) ≡ drop next log)
unfolding sync_session parse_unsigned chunk_documents
sync_session_resumes_example =
    sync_session_resumes 2 1024 (some durable) log ((document 1 ∷ document 2 ∷ []) ∷ []) refl

abbrev inspection : Inspection
inspection = record {
  next_seq = 3;
  event_count = 3;
  workspace = 1;
  durable_workspace = 1;
  scope_token = 9;
  durable_scope_token = 9;
}

abbrev complete : Durable
complete = record { next_seq = number 3; workspace = 1 }

fast_path_agrees_example :
    sync_session 2 1024 (some inspection) (some complete) (ok log)
    ≡ sync_session 2 1024 none (some complete) (ok log)
unfolding parse_unsigned
fast_path_agrees_example =
    fast_path_agrees 2 1024 inspection complete (document 0) (document 1 ∷ document 2 ∷ []) refl
      refl refl refl (λ e. refl)

abbrev listing_now : Source
listing_now = run 8 2 1024 init (start_called ∷ dependencies_ready (ok tt) ∷ task_begins ∷ [])

abbrev failing_events : List Event
failing_events =
    notified malformed_notification
    ∷ sessions_listed (ok (5 ∷ []))
    ∷ states_answered (err SourceError.malformed)
    ∷ []

failure_hidden_example :
    ((run 8 2 1024 listing_now failing_events).phase ≡ scanning)
    × ((run 8 2 1024 listing_now failing_events).is_paused ≡ true)
    × ((run 8 2 1024 listing_now failing_events).running ≡ none)
    × ((run 8 2 1024 listing_now failing_events).last_error ≡ some SourceError.malformed)
unfolding run step
failure_hidden_example =
    failure_hidden 8 2 1024 (5 ∷ []) SourceError.malformed listing_now refl refl refl

-- A pause that waits for the first task, and a start that comes before that task is over and queues a second one.
abbrev paused_late : Source
paused_late = run 8 2 1024 init (
    start_called
    ∷ dependencies_ready (ok tt)
    ∷ task_begins
    ∷ pause_called
    ∷ pause_waits
    ∷ start_called
    ∷ dependencies_ready (ok tt)
    ∷ sessions_listed (ok [])
    ∷ states_answered (ok (number 0, []))
    ∷ task_begins
    ∷ pause_finished
    ∷ [])

-- The pause ends while the second task runs, and sets its phase.
paused_while_running : (paused_late.phase ≡ paused) × (paused_late.running ≡ some listing_sessions)
unfolding run step parse_unsigned
paused_while_running = (refl, refl)
