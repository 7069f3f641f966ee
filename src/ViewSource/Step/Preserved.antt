-- ===== src/ViewSource/Step/Preserved.antt =====
-- Every step of a view source keeps its invariant.
use qq_index.Prelude.{
  ℕ, ◌+◌, ◌≡◌, refl, sym, ap, subst, Bool, true, false, Option, none, some, List, [], ◌∷◌, ◌++◌,
  arith, ok, err, if-elim, ◌||◌, not,
}
use qq_index.ViewSource.Records.{Change, normalize_change}
use qq_index.ViewSource.State.{
  Source, is_live, subscribing, backfill, live, installed, Start, not_started, awaiting_subscribe,
  awaiting_records, awaiting_states, in_record, in_change, activating, marking, start_settled,
  set_change, schedule_buffered, close, finish_close, init, disposing, closed, removed_if_installed,
  at_rest,
}
use qq_index.ViewSource.Work.{
  Answer, Event, start_called, close_called, close_settled, notified, marked, subscribed, activated,
  listed, states_answered, Options, work_step, with_states,
}
use qq_index.ViewSource.Step.{
  enqueue, resume_start, resume_tail, call_start, resumed, enqueued, step, run,
}
use qq_index.ViewSource.Work.Kept.{work_step-Works}
use qq_index.ViewSource.Step.Behind.{Tailed-Inv, resume_tail-Tailed}
use qq_index.ViewSource.Step.Invariant.{
  Inv, Accounted, AccountedFor, NotLive, remaining, is_settled, fail_start-Inv, not_live,
  take_records-Inv, run_records-Inv, length-with_states, after_record-Inv, after_change-Inv,
}

-- The buffer goes into the line of changes where the source is live.
schedule_buffered-Inv :
    (s : Source)
    → AccountedFor s
    → (is_settled s.start ≡ false → NotLive s)
    → Inv (schedule_buffered s)
unfolding schedule_buffered
schedule_buffered-Inv s a n =
    if-elim Inv (s.disposed || not (is_live s.phase)) s
      (record s { buffered = []; queue = s.queue ++ s.buffered })
      (λ e. record {
        accounted = a;
        starting = n;
        unbuffered = λ l d. absurd (cc (rw (l, d) at e));
      })
      (λ e. record { accounted = a; starting = n; unbuffered = λ l d. refl })

-- A phase that is not live asks for no more than another does.
Accounted-quiet :
    (start : Start) (l : Bool) (n m : ℕ) → Accounted start l n m → Accounted start false n m
unfolding Accounted
Accounted-quiet start_settled l n m a = λ e. absurd (cc)
Accounted-quiet not_started l n m a = a
Accounted-quiet awaiting_subscribe l n m a = a
Accounted-quiet awaiting_records l n m a = a
Accounted-quiet marking l n m a = a
Accounted-quiet (in_record w rest later) l n m a = a
Accounted-quiet start l n m a = a

module _ (o : Options) where
  resume_start-Inv :
      (start : Start) (event : Event) (s : Source)
      → NotLive s
      → Accounted start
          (is_live s.phase)
          s.records_listed
          (s.partitions_skipped + s.partitions_committed)
      → Inv s
      → Inv (resume_start o start event s)
  unfolding resume_start Accounted remaining is_settled
  resume_start-Inv awaiting_subscribe (subscribed (ok u)) s n a i =
      not_live (record s { subscription = installed; phase = backfill; start = awaiting_records })
        refl a
  resume_start-Inv awaiting_subscribe (subscribed (err x)) s n a i = fail_start-Inv s n
  resume_start-Inv awaiting_records (listed records) s n a i = take_records-Inv o records s n a
  resume_start-Inv (awaiting_states batch later) (states_answered (ok states) now) s n a i =
      run_records-Inv o (with_states states batch) later s
        (n, omega (arith, a, length-with_states o states batch))
  resume_start-Inv (awaiting_states batch later) (states_answered (err x) now) s n a i =
      fail_start-Inv s n
  resume_start-Inv (in_record w rest later) event s n a i =
      let (k, f) = work_step-Works o event w s in
      after_record-Inv o (work_step o event w s) rest later s k (f a.0) (n, omega (arith, a.1))
  resume_start-Inv (in_change w rest) event s n a i =
      after_change-Inv o (work_step o event w s) rest s (work_step-Works o event w s).0 (n, a)
  resume_start-Inv activating (activated (ok u)) s n a i =
      schedule_buffered-Inv (record s { phase = live; start = start_settled })
        (λ l. omega (arith, a)) (λ e. absurd (cc))
  resume_start-Inv activating (activated (err x)) s n a i = fail_start-Inv s n
  resume_start-Inv marking marked s n a i =
      not_live (record s { start = start_settled }) n (λ l. absurd (cc))
  resume_start-Inv _ _ s n a i = i

  resumed-Inv :
      (start : Start) (event : Event) (s : Source)
      → start ≡ s.start
      → Inv s
      → Inv (resumed o start event s)
  unfolding is_settled
  resumed-Inv not_started event s e i = i
  resumed-Inv start_settled event s e i =
      Tailed-Inv s (resume_tail o s.tail event s) (sym e) (resume_tail-Tailed o s.tail event s) i
  resumed-Inv start event s e i =
      resume_start-Inv start event s (i.starting (ap is_settled (sym e)))
        (subst
          (λ st.
            Accounted st (is_live s.phase) s.records_listed
              (s.partitions_skipped + s.partitions_committed))
          (sym e) i.accounted)
        i

  call_start-Inv :
      (start : Start) (s : Source) → start ≡ s.start → Inv s → Inv (call_start o start s)
  unfolding Accounted
  call_start-Inv not_started s e i =
      if-elim Inv s.disposed s (record s { phase = subscribing; start = awaiting_subscribe })
        (λ d. i)
        (λ d.
          not_live (record s { phase = subscribing; start = awaiting_subscribe }) refl
            (subst
              (λ st.
                Accounted st (is_live s.phase) s.records_listed
                  (s.partitions_skipped + s.partitions_committed))
              (sym e) i.accounted))
  call_start-Inv _ s e i = i

  enqueued-Inv : (change : Answer (Option Change)) (s : Source) → Inv s → Inv (enqueued change s)
  unfolding schedule_buffered
  enqueued-Inv (ok (some c)) s i =
      schedule_buffered-Inv (record s { buffered = set_change c s.buffered }) i.accounted i.starting
  enqueued-Inv (ok none) s i = i
  enqueued-Inv (err e) s i = i

  close-Inv : (s : Source) → Inv s → Inv (close s)
  unfolding close
  close-Inv s i =
      let s' : Source = record s {
        disposed = true;
        closing = true;
        phase = disposing;
        subscription = removed_if_installed s.subscription;
      } in
      if-elim Inv s.disposed s s' (λ e. i)
        (λ e. not_live s' refl (Accounted-quiet s.start (is_live s.phase) _ _ i.accounted))

  finish_close-Inv : (s : Source) → Inv s → Inv (finish_close s)
  unfolding finish_close
  finish_close-Inv s i =
      let s' : Source = record s { buffered = []; phase = closed; closing = false } in
      if-elim Inv (not s.closing || not (at_rest s.tail s.queue)) s s' (λ e. i)
        (λ e. not_live s' refl (Accounted-quiet s.start (is_live s.phase) _ _ i.accounted))

  pub step-Inv : (s : Source) (event : Event) → Inv s → Inv (step o s event)
  unfolding step enqueue
  step-Inv s start_called i = call_start-Inv s.start s refl i
  step-Inv s close_called i = close-Inv s i
  step-Inv s close_settled i = finish_close-Inv s i
  step-Inv s (notified change) i =
      if-elim Inv s.disposed s (enqueued (normalize_change change) s) (λ e. i)
        (λ e. enqueued-Inv (normalize_change change) s i)
  step-Inv s event i = resumed-Inv s.start event s refl i

  pub Inv-run : (s : Source) (events : List Event) → Inv s → Inv (run o s events)
  unfolding run
  Inv-run s [] i = i
  Inv-run s (event ∷ events) i = Inv-run (step o s event) events (step-Inv s event i)

pub init-Inv : Inv init
unfolding init Accounted
init-Inv = not_live init refl refl
