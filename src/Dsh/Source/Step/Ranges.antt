-- ===== src/Dsh/Source/Step/Ranges.antt =====
-- The watermark, the counts and the buffer of the source in every order of events.
use qq_index.Prelude.{
  ℕ, ◌≤◌, ◌≡◌, refl, Option, none, some, List, [], ◌∷◌, arith, ok, err, length, length-append,
}
use qq_index.Dsh.Source.{
  Source, TaskKind, Progress, Notification, init, listing_sessions, reading_states, reading_session,
  applying, session_disposed, session_changed, malformed_notification, add_bounded, changed, gone,
  on_live, schedule_drain, record_failure,
}
use qq_index.Dsh.Source.Step.{
  Event, enqueue, ready_to_start, start_called, sync_called, pause_called, close_called,
  dependencies_ready, pause_waits, close_waits, pause_finished, close_finished, notified,
  task_begins, sessions_listed, states_answered, log_read, batch_answered, step, run, finish_start,
  next_task, start, sync, pause, close, wait_pause, finish_pause, end_pause, wait_close,
  finish_close, end_close, resume,
}
use qq_index.Dsh.Source.Step.Kept.{begin-Kept}
use qq_index.Dsh.Source.Step.Counts.{
  Counts, Forward, then-Forward, listed-Forward, fail-Forward, states_read-Forward,
  session_read-Forward, applied-Forward,
}

module _ (maximum : ℕ) where
  resume-Forward :
      (max_documents max_bytes : ℕ) (running : Option Progress) (event : Event) (s : Source)
      → Counts maximum s
      → Forward maximum s (resume maximum max_documents max_bytes running event s)
  unfolding resume
  resume-Forward max_documents max_bytes (some listing_sessions) (sessions_listed outcome) s v =
      listed-Forward maximum outcome s v
  resume-Forward max_documents max_bytes
        (some (reading_states loop (chunk ∷ chunks) states sessions later))
        (states_answered (ok (value, found))) s v =
      states_read-Forward maximum loop chunks states sessions later value found s v
  resume-Forward max_documents max_bytes
        (some (reading_states loop (chunk ∷ chunks) states sessions later))
        (states_answered (err x)) s v =
      fail-Forward maximum loop x s v
  resume-Forward max_documents max_bytes (some (reading_session loop states session rest later))
        (log_read (ok (inspection, projected))) s v =
      session_read-Forward maximum max_documents max_bytes loop states session rest later inspection
        projected s v
  resume-Forward max_documents max_bytes (some (reading_session loop states session rest later))
        (log_read (err x)) s v =
      fail-Forward maximum loop x s v
  resume-Forward max_documents max_bytes (some (applying loop states batch batches rest later))
        (batch_answered (ok value)) s v =
      applied-Forward maximum loop states batch batches rest later value s v
  resume-Forward max_documents max_bytes (some (applying loop states batch batches rest later))
        (batch_answered (err x)) s v =
      fail-Forward maximum loop x s v
  resume-Forward max_documents max_bytes _ _ s v = ground arith

  next_task-Forward :
      (queue : List TaskKind) (running : Option Progress) (s : Source)
      → Counts maximum s
      → Forward maximum s (next_task queue running s)
  unfolding next_task
  next_task-Forward [] running s v = ground arith
  next_task-Forward (task ∷ queue) (some p) s v = ground arith
  next_task-Forward (task ∷ queue) none s v =
      ground (arith, begin-Kept task (record s { queue = queue }))

  add_bounded_lem :
      (session : ℕ) (set more : List ℕ)
      → length set ≤ maximum
      → add_bounded maximum session set ≡ some more
      → length more ≤ maximum
  unfolding add_bounded
  add_bounded_lem session set more h e = ground (arith, length-append set (session ∷ []))

  changed-Forward :
      (set : Option (List ℕ)) (s : Source)
      → ((more : List ℕ) → set ≡ some more → length more ≤ maximum)
      → Counts maximum s
      → Forward maximum s (changed maximum set s)
  unfolding changed schedule_drain record_failure
  changed-Forward none s bound v = ground arith
  changed-Forward (some more) s bound v = ground (arith, bound more refl)

  gone-Forward :
      (set : Option (List ℕ)) (s : Source)
      → Counts maximum s
      → Forward maximum s (gone maximum set s)
  unfolding gone record_failure
  gone-Forward none s v = ground arith
  gone-Forward (some disposed) s v = ground arith

  on_live-Forward :
      (notification : Notification) (s : Source)
      → Counts maximum s
      → Forward maximum s (on_live maximum notification s)
  unfolding on_live record_failure
  on_live-Forward (session_disposed session) s v =
      ground (arith, gone-Forward (add_bounded maximum session s.disposed) s v)
  on_live-Forward (session_changed session) s v =
      let bound = λ (more : List ℕ). add_bounded_lem session s.buffered more v.buffered_bound in
      ground (arith, changed-Forward (add_bounded maximum session s.buffered) s bound v)
  on_live-Forward malformed_notification s v = ground arith

  end_pause-Forward :
      (waiting : List ℕ) (s : Source) → Counts maximum s → Forward maximum s (end_pause waiting s)
  unfolding end_pause
  end_pause-Forward [] s v = ground arith
  end_pause-Forward (tasks ∷ waiting) s v = ground arith

  end_close-Forward :
      (waiting : List ℕ) (s : Source) → Counts maximum s → Forward maximum s (end_close waiting s)
  unfolding end_close
  end_close-Forward [] s v = ground arith
  end_close-Forward (tasks ∷ waiting) s v = ground arith

  step-Forward :
      (max_documents max_bytes : ℕ) (s : Source) (event : Event)
      → Counts maximum s
      → Forward maximum s (step maximum max_documents max_bytes s event)
  unfolding step start sync pause close wait_pause wait_close finish_pause finish_close finish_start
      ready_to_start enqueue record_failure
  step-Forward max_documents max_bytes s start_called v = ground arith
  step-Forward max_documents max_bytes s sync_called v = ground arith
  step-Forward max_documents max_bytes s pause_called v = ground arith
  step-Forward max_documents max_bytes s close_called v = ground arith
  step-Forward max_documents max_bytes s (dependencies_ready (ok x)) v = ground arith
  step-Forward max_documents max_bytes s (dependencies_ready (err x)) v = ground arith
  step-Forward max_documents max_bytes s pause_waits v = ground arith
  step-Forward max_documents max_bytes s close_waits v = ground arith
  step-Forward max_documents max_bytes s pause_finished v = end_pause-Forward s.pauses s v
  step-Forward max_documents max_bytes s close_finished v = end_close-Forward s.closes s v
  step-Forward max_documents max_bytes s (notified notification) v =
      on_live-Forward notification s v
  step-Forward max_documents max_bytes s task_begins v = next_task-Forward s.queue s.running s v
  step-Forward max_documents max_bytes s event v =
      resume-Forward max_documents max_bytes s.running event s v

  unchanged-Forward : (s : Source) → Counts maximum s → Forward maximum s s
  unchanged-Forward s v = ground arith

  run-Forward :
      (max_documents max_bytes : ℕ) (s : Source) (events : List Event)
      → Counts maximum s
      → Forward maximum s (run maximum max_documents max_bytes s events)
  unfolding run
  run-Forward max_documents max_bytes s [] v = unchanged-Forward s v
  run-Forward max_documents max_bytes s (event ∷ events) v =
      let s' = step maximum max_documents max_bytes s event in
      let f = step-Forward max_documents max_bytes s event v in
      then-Forward maximum s s' (run maximum max_documents max_bytes s' events) f
        (run-Forward max_documents max_bytes s' events f.counts)

  init-Counts : Counts maximum init
  init-Counts = ground arith

  -- In every order of events the watermark stays in the range of the daemon's integers, the counts of
  -- committed events and of scanned sessions in the range of safe integers, as many documents are counted as
  -- events, and the buffer holds at most the maximum of sessions.
  pub run-Counts :
      (max_documents max_bytes : ℕ) (events : List Event)
      → Counts maximum (run maximum max_documents max_bytes init events)
  run-Counts max_documents max_bytes events =
      let f = run-Forward max_documents max_bytes init events init-Counts in f.counts

  -- From any state whose counts are in their ranges, no order of events makes the watermark or a count smaller.
  never_backwards :
      (max_documents max_bytes : ℕ) (s : Source) (events : List Event)
      → Counts maximum s
      → (s.watermark ≤ (run maximum max_documents max_bytes s events).watermark)
        × (s.events_committed ≤ (run maximum max_documents max_bytes s events).events_committed)
        × (s.sessions_scanned ≤ (run maximum max_documents max_bytes s events).sessions_scanned)
  never_backwards max_documents max_bytes s events v =
      let f = run-Forward max_documents max_bytes s events v in (f.watermark, f.events, f.sessions)
