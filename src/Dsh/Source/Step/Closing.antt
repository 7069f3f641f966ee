-- ===== src/Dsh/Source/Step/Closing.antt =====
-- The source after `close`, in every order of events.
use qq_index.Prelude.{ℕ, ◌≡◌, refl, true, false, Option, none, some, List, [], ◌∷◌, arith, ok, err}
use qq_index.Dsh.Source.{
  Source, TaskKind, Progress, listing_sessions, reading_states, reading_session, applying,
  Notification, session_disposed, session_changed, malformed_notification, record_failure, on_live,
}
use qq_index.Dsh.Source.Task.{begin}
use qq_index.Dsh.Source.Step.{
  Event, enqueue, ready_to_start, start_called, sync_called, pause_called, close_called,
  dependencies_ready, pause_waits, close_waits, pause_finished, close_finished, notified,
  task_begins, sessions_listed, states_answered, log_read, step, run, finish_start, next_task,
  start, sync, pause, close, wait_pause, finish_pause, end_pause, wait_close, finish_close,
  end_close, resume,
}
use qq_index.Dsh.Source.Step.Quiet.{
  is_applying, Quiet, then-Quiet, fail-Quiet, listed-Quiet, states_read-Quiet, session_read-Quiet,
}

next_task-Quiet :
    (queue : List TaskKind) (running : Option Progress) (s : Source)
    → running ≡ s.running
    → s.is_closed ≡ true
    → is_applying s.running ≡ false
    → Quiet s (next_task queue running s)
unfolding next_task begin
next_task-Quiet [] running s r c a = ground arith
next_task-Quiet (task ∷ queue) (some p) s r c a = ground arith
next_task-Quiet (task ∷ queue) none s r c a = ground arith

on_live-Quiet :
    (maximum : ℕ) (notification : Notification) (s : Source)
    → s.is_closed ≡ true
    → is_applying s.running ≡ false
    → Quiet s (on_live maximum notification s)
unfolding on_live
on_live-Quiet maximum (session_disposed session) s c a = ground arith
on_live-Quiet maximum (session_changed session) s c a = ground arith
on_live-Quiet maximum malformed_notification s c a = ground arith

module _ (max_buffered max_documents max_bytes : ℕ) where
  resume-Quiet :
      (running : Option Progress) (event : Event) (s : Source)
      → running ≡ s.running
      → s.is_closed ≡ true
      → is_applying running ≡ false
      → Quiet s (resume max_buffered max_documents max_bytes running event s)
  unfolding resume
  resume-Quiet (some listing_sessions) (sessions_listed outcome) s r c a = listed-Quiet outcome s c
  resume-Quiet (some (reading_states loop (chunk ∷ chunks) states sessions later))
        (states_answered (ok (value, found))) s r c a =
      states_read-Quiet loop chunks states sessions later value found s c
  resume-Quiet (some (reading_states loop (chunk ∷ chunks) states sessions later))
        (states_answered (err x)) s r c a =
      fail-Quiet loop x s c
  resume-Quiet (some (reading_session loop states session rest later))
        (log_read (ok (inspection, projected))) s r c a =
      session_read-Quiet max_documents max_bytes loop states session rest later inspection projected
        s c
  resume-Quiet (some (reading_session loop states session rest later)) (log_read (err x)) s r c a =
      fail-Quiet loop x s c
  resume-Quiet (some (applying loop states batch batches rest later)) event s r c a = cc
  resume-Quiet _ _ s r c a = (c, (cc (r)), refl, refl)

  end_pause-Quiet :
      (waiting : List ℕ) (s : Source)
      → s.is_closed ≡ true
      → is_applying s.running ≡ false
      → Quiet s (end_pause waiting s)
  unfolding end_pause
  end_pause-Quiet [] s c a = ground arith
  end_pause-Quiet (tasks ∷ waiting) s c a = ground arith

  end_close-Quiet :
      (waiting : List ℕ) (s : Source)
      → s.is_closed ≡ true
      → is_applying s.running ≡ false
      → Quiet s (end_close waiting s)
  unfolding end_close
  end_close-Quiet [] s c a = ground arith
  end_close-Quiet (tasks ∷ waiting) s c a = ground arith

  step-Quiet :
      (s : Source) (event : Event)
      → s.is_closed ≡ true
      → is_applying s.running ≡ false
      → Quiet s (step max_buffered max_documents max_bytes s event)
  unfolding step start sync pause close wait_pause wait_close finish_pause finish_close finish_start
      ready_to_start enqueue record_failure
  step-Quiet s start_called c a = ground arith
  step-Quiet s sync_called c a = ground arith
  step-Quiet s pause_called c a = ground arith
  step-Quiet s close_called c a = ground arith
  step-Quiet s (dependencies_ready (ok x)) c a = ground arith
  step-Quiet s (dependencies_ready (err x)) c a = ground arith
  step-Quiet s pause_waits c a = ground arith
  step-Quiet s close_waits c a = ground arith
  step-Quiet s pause_finished c a = end_pause-Quiet s.pauses s c a
  step-Quiet s close_finished c a = end_close-Quiet s.closes s c a
  step-Quiet s (notified notification) c a = on_live-Quiet max_buffered notification s c a
  step-Quiet s task_begins c a = next_task-Quiet s.queue s.running s refl c a
  step-Quiet s event c a = resume-Quiet s.running event s refl c a

  -- Once the source is closed and waits for no receipt, then whatever happens it stays closed, it submits no
  -- batch, and its counts of committed events and documents stay as they are.
  pub closed_final :
      (events : List Event) (s : Source)
      → s.is_closed ≡ true
      → is_applying s.running ≡ false
      → ((run max_buffered max_documents max_bytes s events).is_closed ≡ true)
        × (is_applying (run max_buffered max_documents max_bytes s events).running ≡ false)
        × ((run max_buffered max_documents max_bytes s events).events_committed
            ≡ s.events_committed)
        × ((run max_buffered max_documents max_bytes s events).documents_committed
            ≡ s.documents_committed)
  unfolding run
  closed_final [] s c a = (c, a, refl, refl)
  closed_final (event ∷ events) s c a =
      let (c', a', e, d) = step-Quiet s event c a in
      then-Quiet s (step max_buffered max_documents max_bytes s event)
        (run max_buffered max_documents max_bytes
          (step max_buffered max_documents max_bytes s event) events)
        e d (closed_final events (step max_buffered max_documents max_bytes s event) c' a')
