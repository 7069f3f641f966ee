-- ===== src/ViewSource/Step/Leaks.antt =====
-- A view source that is closed and still has its subscription.
use qq_index.Prelude.{
  ◌≡◌, ◌∙◌, refl, true, false, Option, none, some, List, [], ◌∷◌, ◌++◌, ok, err, if-elim,
  if◌then◌else◌, not, ◌||◌,
}
use qq_index.Client.Values.{Value, elements}
use qq_index.ViewSource.Records.{Change, Durable, normalize_change, validate_source_records}
use qq_index.ViewSource.State.{
  Source, is_live, catching_up, live, failed, closed, Work, Progress, waits, done, fails, installed,
  Start, not_started, awaiting_subscribe, awaiting_records, awaiting_states, in_record, in_change,
  activating, marking, start_settled, Tail, resolved, rejected, tail_marking, working,
  schedule_buffered, fail_start, fail_tail, close, finish_close, at_rest,
}
use qq_index.ViewSource.Work.{
  Answer, Event, Options, activated, begin_change, begin_record, close_called, close_settled,
  listed, marked, notified, start_called, states_answered, subscribed, tail_begins, with_states,
  work_step,
}
use qq_index.ViewSource.Work.Kept.{Kept, begin_record-Works, work_step-Works}
use qq_index.ViewSource.Step.{
  enqueue, enqueued, work_taken, drain_buffered, next_change, next_batch, take_record, run_records,
  after_change, checked_records, take_records, resume_start, after_tail, tail_taken, begin_tail,
  resume_tail, resumed, call_start, step, run,
}

abbrev pub Leaks : Source → Type 0
Leaks s = (s.disposed ≡ true) × (s.subscription ≡ installed)

Kept-Leaks : (s s' : Source) → Kept s s' → Leaks s → Leaks s'
Kept-Leaks s s' k (d, l) = (k.disposed ∙ d, k.subscription ∙ l)

closed_branch :
    (s taken other : Source)
    → s.disposed ≡ true
    → Leaks taken
    → Leaks (if s.disposed then taken else other)
closed_branch s taken other d v = rw d v

fail_start-Leaks : (s : Source) → Leaks s → Leaks (fail_start s)
unfolding fail_start
fail_start-Leaks s v =
    if-elim Leaks s.disposed (record s { start = start_settled })
      (record s { phase = failed; start = marking }) (λ e. v) (λ e. v)

fail_tail-Leaks : (s : Source) → Leaks s → Leaks (fail_tail s)
unfolding fail_tail
fail_tail-Leaks s v =
    if-elim Leaks s.disposed (record s { tail = rejected })
      (record s { phase = failed; tail = tail_marking }) (λ e. v) (λ e. v)

schedule_buffered-Leaks : (s : Source) → Leaks s → Leaks (schedule_buffered s)
unfolding schedule_buffered
schedule_buffered-Leaks s v =
    if-elim Leaks (s.disposed || not (is_live s.phase)) s
      (record s { buffered = []; queue = s.queue ++ s.buffered }) (λ e. v) (λ e. v)

close-Leaks : (s : Source) → Leaks s → Leaks (close s)
unfolding close
close-Leaks s v = closed_branch s s _ v.0 v

finish_close-Leaks : (s : Source) → Leaks s → Leaks (finish_close s)
unfolding finish_close
finish_close-Leaks s v =
    if-elim Leaks (not s.closing || not (at_rest s.tail s.queue)) s
      (record s { buffered = []; phase = closed; closing = false }) (λ e. v) (λ e. v)

enqueue-Leaks : (change : Value) (s : Source) → Leaks s → Leaks (enqueue change s)
unfolding enqueue
enqueue-Leaks change s v = closed_branch s s (enqueued (normalize_change change) s) v.0 v

module _ (o : Options) where
  work_taken-Leaks :
      (w : Option Work) (cs : List Change) (s : Source) → Leaks s → Leaks (work_taken o w cs s)
  work_taken-Leaks (some w) cs s v = v
  work_taken-Leaks none cs s v = fail_start-Leaks s v

  drain_buffered-Leaks : (cs : List Change) (s : Source) → Leaks s → Leaks (drain_buffered o cs s)
  drain_buffered-Leaks [] s v = v
  drain_buffered-Leaks (c ∷ cs) s v =
      work_taken-Leaks (begin_change o c (record s { buffered = [] })) cs
        (record s { buffered = [] }) v

  next_change-Leaks : (cs : List Change) (s : Source) → Leaks s → Leaks (next_change o cs s)
  next_change-Leaks [] s v = drain_buffered-Leaks s.buffered s v
  next_change-Leaks (c ∷ cs) s v = work_taken-Leaks (begin_change o c s) cs s v

  next_batch-Leaks : (rs : List Value) (s : Source) → Leaks s → Leaks (next_batch o rs s)
  next_batch-Leaks [] s v = drain_buffered-Leaks s.buffered (record s { phase = catching_up }) v
  next_batch-Leaks (r ∷ rs) s v = closed_branch s (fail_start s) _ v.0 (fail_start-Leaks s v)

  take_record-Leaks :
      (after : Source × Progress) (rest : List (Value × Option Durable)) (later : List Value)
      (further : Source)
      → Leaks after.0
      → Leaks further
      → Leaks (take_record o after rest later further)
  take_record-Leaks (s, waits w) rest later further v k = v
  take_record-Leaks (s, done) rest later further v k = k
  take_record-Leaks (s, fails) rest later further v k = fail_start-Leaks s v

  run_records-Leaks :
      (rest : List (Value × Option Durable)) (later : List Value) (s : Source)
      → Leaks s
      → Leaks (run_records o rest later s)
  unfolding run_records
  run_records-Leaks [] later s v = next_batch-Leaks later s v
  run_records-Leaks ((r, durable) ∷ rest) later s v =
      let after = begin_record o r durable s in
      let k = Kept-Leaks s after.0 (begin_record-Works o r durable s).0 v in
      take_record-Leaks after rest later (run_records o rest later after.0) k
        (run_records-Leaks rest later after.0 k)

  after_change-Leaks :
      (after : Source × Progress) (rest : List Change)
      → Leaks after.0
      → Leaks (after_change o after rest)
  after_change-Leaks (s, waits w) rest v = v
  after_change-Leaks (s, done) rest v = next_change-Leaks rest s v
  after_change-Leaks (s, fails) rest v = fail_start-Leaks s v

  checked_records-Leaks :
      (checked : Answer (Unit {0})) (records : Value) (s : Source)
      → Leaks s
      → Leaks (checked_records o checked records s)
  checked_records-Leaks (ok u) records s v = next_batch-Leaks (elements records) _ v
  checked_records-Leaks (err e) records s v = fail_start-Leaks s v

  take_records-Leaks :
      (records : Answer Value) (s : Source) → Leaks s → Leaks (take_records o records s)
  take_records-Leaks (ok records) s v =
      checked_records-Leaks (validate_source_records records o.max_partitions) records s v
  take_records-Leaks (err e) s v = fail_start-Leaks s v

  resume_start-Leaks :
      (start : Start) (event : Event) (s : Source) → Leaks s → Leaks (resume_start o start event s)
  unfolding resume_start
  resume_start-Leaks awaiting_subscribe (subscribed (ok u)) s v = (v.0, refl)
  resume_start-Leaks awaiting_subscribe (subscribed (err e)) s v = fail_start-Leaks s v
  resume_start-Leaks awaiting_records (listed records) s v = take_records-Leaks records s v
  resume_start-Leaks (awaiting_states batch later) (states_answered (ok states) now) s v =
      run_records-Leaks (with_states states batch) later s v
  resume_start-Leaks (awaiting_states batch later) (states_answered (err e) now) s v =
      fail_start-Leaks s v
  resume_start-Leaks (in_record w rest later) event s v =
      let after = work_step o event w s in
      let k = Kept-Leaks s after.0 (work_step-Works o event w s).0 v in
      take_record-Leaks after rest later (run_records o rest later after.0) k
        (run_records-Leaks rest later after.0 k)
  resume_start-Leaks (in_change w rest) event s v =
      let after = work_step o event w s in
      after_change-Leaks after rest (Kept-Leaks s after.0 (work_step-Works o event w s).0 v)
  resume_start-Leaks activating (activated (ok u)) s v =
      schedule_buffered-Leaks (record s { phase = live; start = start_settled }) v
  resume_start-Leaks activating (activated (err e)) s v = fail_start-Leaks s v
  resume_start-Leaks marking marked s v = v
  resume_start-Leaks _ _ s v = v

  after_tail-Leaks : (after : Source × Progress) → Leaks after.0 → Leaks (after_tail o after)
  after_tail-Leaks (s, waits w) v = v
  after_tail-Leaks (s, done) v = v
  after_tail-Leaks (s, fails) v = fail_tail-Leaks s v

  tail_taken-Leaks :
      (w : Option Work) (cs : List Change) (s : Source) → Leaks s → Leaks (tail_taken o w cs s)
  tail_taken-Leaks (some w) cs s v = v
  tail_taken-Leaks none cs s v = fail_tail-Leaks (record s { queue = cs }) v

  begin_tail-Leaks :
      (tail : Tail) (cs : List Change) (s : Source) → Leaks s → Leaks (begin_tail o tail cs s)
  begin_tail-Leaks resolved (c ∷ cs) s v = tail_taken-Leaks (begin_change o c s) cs s v
  begin_tail-Leaks rejected (c ∷ cs) s v = fail_tail-Leaks (record s { queue = cs }) v
  begin_tail-Leaks _ _ s v = v

  resume_tail-Leaks :
      (tail : Tail) (event : Event) (s : Source) → Leaks s → Leaks (resume_tail o tail event s)
  unfolding resume_tail
  resume_tail-Leaks (working w) event s v =
      let after = work_step o event w s in
      after_tail-Leaks after (Kept-Leaks s after.0 (work_step-Works o event w s).0 v)
  resume_tail-Leaks tail_marking marked s v = v
  resume_tail-Leaks tail tail_begins s v = begin_tail-Leaks tail s.queue s v
  resume_tail-Leaks _ _ s v = v

  resumed-Leaks :
      (start : Start) (event : Event) (s : Source) → Leaks s → Leaks (resumed o start event s)
  resumed-Leaks not_started event s v = v
  resumed-Leaks start_settled event s v = resume_tail-Leaks s.tail event s v
  resumed-Leaks start event s v = resume_start-Leaks start event s v

  call_start-Leaks : (start : Start) (s : Source) → Leaks s → Leaks (call_start o start s)
  call_start-Leaks not_started s v = closed_branch s s _ v.0 v
  call_start-Leaks _ s v = v

  pub step-Leaks : (s : Source) (event : Event) → Leaks s → Leaks (step o s event)
  unfolding step
  step-Leaks s start_called v = call_start-Leaks s.start s v
  step-Leaks s close_called v = close-Leaks s v
  step-Leaks s close_settled v = finish_close-Leaks s v
  step-Leaks s (notified change) v = enqueue-Leaks change s v
  step-Leaks s event v = resumed-Leaks s.start event s v

  pub run-Leaks : (s : Source) (events : List Event) → Leaks s → Leaks (run o s events)
  unfolding run
  run-Leaks s [] v = v
  run-Leaks s (event ∷ events) v = run-Leaks (step o s event) events (step-Leaks s event v)

  installs :
      (s : Source) → s.disposed ≡ true → Leaks (resumed o awaiting_subscribe (subscribed (ok tt)) s)
  unfolding resume_start
  installs s d = (d, refl)

  subscription_installed :
      (start : Start) (s : Source)
      → start ≡ awaiting_subscribe
      → s.disposed ≡ true
      → Leaks (resumed o start (subscribed (ok tt)) s)
  subscription_installed start s e d =
      let waiting : Leaks (resumed o awaiting_subscribe (subscribed (ok tt)) s) = installs s d in
      rw e waiting

  -- If the source is closed while `start` waits for `subscribe`, and the subscription comes, then it is there for good:
  -- whatever happens afterwards, further calls of `close` included, the source is closed and does not remove it.
  pub late_subscription :
      (s : Source) (events : List Event)
      → s.start ≡ awaiting_subscribe
      → s.disposed ≡ true
      → let s' = run o s (subscribed (ok tt) ∷ events) in
        (s'.disposed ≡ true) × (s'.subscription ≡ installed)
  unfolding run step
  late_subscription s events e d =
      run-Leaks (step o s (subscribed (ok tt))) events (subscription_installed s.start s e d)
