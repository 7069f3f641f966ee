-- ===== src/Dsh/Source/Step/Promises.antt =====
-- What the source promises in every order of events.
use qq_index.Prelude.{ℕ, ◌≡◌, refl, true, false, List, [], ◌∷◌, arith, ◌⊎◌}
use qq_index.Dsh.Source.{Source, is_live, is_empty, init}
use qq_index.Dsh.Source.Step.{
  Event, start_called, sync_called, pause_called, close_called, dependencies_ready, pause_waits,
  close_waits, pause_finished, close_finished, notified, task_begins, step, run,
}
use qq_index.Dsh.Source.Step.Invariant.{Inv, runs_drain, queues_drain}
use qq_index.Dsh.Source.Step.Commands.{
  start-Inv, finish_start-Inv, sync-Inv, pause-Inv, wait_pause-Inv, wait_close-Inv,
  finish_pause-Inv, close-Inv, finish_close-Inv, next_task-Inv, on_live-Inv,
}
use qq_index.Dsh.Source.Step.Preserved.{resume-Inv}

module _ (max_buffered max_documents max_bytes : ℕ) where
  step-Inv :
      (s : Source) (event : Event) → Inv s → Inv (step max_buffered max_documents max_bytes s event)
  unfolding step
  step-Inv s start_called v = start-Inv s v
  step-Inv s sync_called v = sync-Inv s v
  step-Inv s pause_called v = pause-Inv s v
  step-Inv s close_called v = close-Inv s v
  step-Inv s (dependencies_ready outcome) v = finish_start-Inv outcome s v
  step-Inv s pause_waits v = wait_pause-Inv s v
  step-Inv s close_waits v = wait_close-Inv s v
  step-Inv s pause_finished v = finish_pause-Inv s v
  step-Inv s close_finished v = finish_close-Inv s v
  step-Inv s (notified notification) v = on_live-Inv max_buffered notification s v
  step-Inv s task_begins v = next_task-Inv s.queue s.running s refl refl v
  step-Inv s event v = resume-Inv max_buffered max_documents max_bytes s.running event s refl v

  run-Inv :
      (s : Source) (events : List Event)
      → Inv s
      → Inv (run max_buffered max_documents max_bytes s events)
  unfolding run
  run-Inv s [] v = v
  run-Inv s (event ∷ events) v =
      run-Inv (step max_buffered max_documents max_bytes s event) events (step-Inv s event v)

  init-Inv : Inv init
  init-Inv = ground arith

  -- In every order of events, while the source is live and neither paused nor closed, a session that a
  -- notification has left in the buffer has a drain that is queued or running: no notification is forgotten.
  pub drain_pending :
      (events : List Event)
      → is_live (run max_buffered max_documents max_bytes init events).phase ≡ true
      → (run max_buffered max_documents max_bytes init events).is_closed ≡ false
      → (run max_buffered max_documents max_bytes init events).is_paused ≡ false
      → is_empty (run max_buffered max_documents max_bytes init events).buffered ≡ false
      → (queues_drain (run max_buffered max_documents max_bytes init events).queue ≡ true)
        ⊎ (runs_drain (run max_buffered max_documents max_bytes init events).running ≡ true)
  drain_pending events is_at_rest opened active waiting =
      let v = run-Inv init events init-Inv in
      v.scheduled opened (v.served is_at_rest opened active waiting)
