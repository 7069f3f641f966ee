-- ===== src/Dsh/Source/Step/Commands.antt =====
-- The calls of the service and the live notifications keep the invariant of the source.
use qq_index.Prelude.{
  ℕ, ◌-◌, ltb, ◌≡◌, true, false, Option, none, some, List, [], ◌∷◌, arith, inl, inr, Bool-cases,
  Outcome, ok, err,
}
use qq_index.Dsh.Errors.{SourceError, queue_overflow}
use qq_index.Dsh.Source.{
  Source, TaskKind, Progress, Notification, session_disposed, session_changed,
  malformed_notification, corpus_sync, record_failure, add_bounded, changed, gone, schedule_drain,
  on_live,
}
use qq_index.Dsh.Source.Step.{
  start, enqueue, ready_to_start, finish_start, sync, pause, wait_pause, end_pause, finish_pause,
  close, wait_close, end_close, finish_close, next_task,
}
use qq_index.Dsh.Source.Step.Invariant.{Inv, queues_drain-append, queues_drain-snoc}
use qq_index.Dsh.Source.Step.Preserved.{begin-Inv}

pub start-Inv : (s : Source) → Inv s → Inv (start s)
unfolding start
start-Inv s v = ground arith

enqueue-Inv : (s : Source) → Inv s → Inv (enqueue corpus_sync s)
unfolding enqueue
enqueue-Inv s v = ground (arith, queues_drain-append s.queue (corpus_sync ∷ []))

subscribed-Inv : (s : Source) → Inv s → Inv (record s { subscribed = true })
subscribed-Inv s v = ground arith

pub record_failure-Inv : (e : SourceError) (s : Source) → Inv s → Inv (record_failure e s)
unfolding record_failure
record_failure-Inv e s v = ground arith

ready_to_start-Inv :
    (outcome : Outcome SourceError (Unit {0})) (s : Source) → Inv s → Inv (ready_to_start outcome s)
unfolding ready_to_start
ready_to_start-Inv (ok x) s v = enqueue-Inv _ (subscribed-Inv s v)
ready_to_start-Inv (err e) s v = record_failure-Inv e s v

waits-Inv : (starts : ℕ) (s : Source) → Inv s → Inv (record s { starts = starts })
waits-Inv starts s v = ground arith

pub finish_start-Inv :
    (outcome : Outcome SourceError (Unit {0})) (s : Source) → Inv s → Inv (finish_start outcome s)
unfolding finish_start
finish_start-Inv outcome s v = elim (Bool-cases (ltb 0 s.starts)) [
  | inl e ↦ rw (e, finish_start) (ready_to_start-Inv outcome _ (waits-Inv (s.starts - 1) s v))
  | inr e ↦ rw (e, finish_start) v
]

pub sync-Inv : (s : Source) → Inv s → Inv (sync s)
unfolding sync
sync-Inv s v = ground (arith, start-Inv s v, enqueue-Inv s v)

pub pause-Inv : (s : Source) → Inv s → Inv (pause s)
unfolding pause
pause-Inv s v = ground arith

pub wait_pause-Inv : (s : Source) → Inv s → Inv (wait_pause s)
unfolding wait_pause
wait_pause-Inv s v = ground arith

end_pause-Inv : (waiting : List ℕ) (s : Source) → Inv s → Inv (end_pause waiting s)
unfolding end_pause
end_pause-Inv [] s v = v
end_pause-Inv (tasks ∷ waiting) s v = ground arith

pub finish_pause-Inv : (s : Source) → Inv s → Inv (finish_pause s)
unfolding finish_pause
finish_pause-Inv s v = end_pause-Inv s.pauses s v

pub close-Inv : (s : Source) → Inv s → Inv (close s)
unfolding close
close-Inv s v = ground arith

pub wait_close-Inv : (s : Source) → Inv s → Inv (wait_close s)
unfolding wait_close
wait_close-Inv s v = ground arith

end_close-Inv : (waiting : List ℕ) (s : Source) → Inv s → Inv (end_close waiting s)
unfolding end_close
end_close-Inv [] s v = v
end_close-Inv (tasks ∷ waiting) s v = ground arith

pub finish_close-Inv : (s : Source) → Inv s → Inv (finish_close s)
unfolding finish_close
finish_close-Inv s v = end_close-Inv s.closes s v

pub next_task-Inv :
    (queue : List TaskKind) (running : Option Progress) (s : Source)
    → s.queue ≡ queue
    → s.running ≡ running
    → Inv s
    → Inv (next_task queue running s)
unfolding next_task
next_task-Inv [] running s q r v = v
next_task-Inv (task ∷ queue) (some p) s q r v = v
next_task-Inv (task ∷ queue) none s q r v =
    begin-Inv task (record s { queue = queue }) (ground arith)

module _ (maximum : ℕ) where
  changed-Inv :
      (set : Option (List ℕ)) (s : Source)
      → Inv s
      → s.is_closed ≡ false
      → s.is_paused ≡ false
      → Inv (changed maximum set s)
  unfolding changed schedule_drain
  changed-Inv none s v active running = record_failure-Inv queue_overflow s v
  changed-Inv (some buffered) s v active running = ground (arith, queues_drain-snoc s.queue)

  gone-Inv : (set : Option (List ℕ)) (s : Source) → Inv s → Inv (gone maximum set s)
  unfolding gone
  gone-Inv none s v = record_failure-Inv queue_overflow s v
  gone-Inv (some disposed) s v = ground arith

  pub on_live-Inv :
      (notification : Notification) (s : Source) → Inv s → Inv (on_live maximum notification s)
  unfolding on_live
  on_live-Inv (session_disposed session) s v =
      ground (arith, gone-Inv (add_bounded maximum session s.disposed) s v)
  on_live-Inv (session_changed session) s v =
      ground (arith, changed-Inv (add_bounded maximum session s.buffered) s v)
  on_live-Inv malformed_notification s v =
      ground (arith, record_failure-Inv SourceError.malformed s v)
