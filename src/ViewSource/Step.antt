-- ===== src/ViewSource/Step.antt =====
-- src/dsh-alpha4-view-source.mjs: the steps of a view source, one for each call of it and for each await that comes back.
pub mod Invariant
pub mod Behind
pub mod Preserved
pub mod Promises
pub mod Leaks
mod Tests
use Prim.Native.String.{String}
use qq_index.Prelude.{
  ℕ, zero, suc, ◌+◌, Bool, true, false, not, ◌||◌, Option, none, some, List, [], ◌∷◌, ◌++◌, length,
  take, drop, if◌then◌else◌, Outcome, ok, err, ◌>>=◌,
}
use qq_index.Client.Values.{Value, get, same_text, elements}
use qq_index.Client.Requests.{text_or_empty}
use qq_index.ViewSource.Checks.{ViewSourceError}
use qq_index.ViewSource.Records.{
  Change, ChangeKind, upsert, delete, Durable, or_else, can_skip, normalize_change,
  validate_observation, validate_source_records,
}
use qq_index.ViewSource.Replacement.{checked_identity, replacement, deletion}
use qq_index.ViewSource.State.{
  Source, Phase, subscribing, backfill, catching_up, live, Replacing, observing, projecting,
  mutating, Work, replacing, reading_state, deleting, Progress, waits, done, fails, Start,
  not_started, awaiting_subscribe, awaiting_records, awaiting_states, in_record, in_change,
  activating, marking, start_settled, Tail, resolved, rejected, tail_marking, working, installed,
  set_change, schedule_buffered, fail_start, fail_tail, close, finish_close,
}
use qq_index.ViewSource.Work.{
  Answer, Event, Options, activated, after_check, begin_change, begin_record, close_called,
  close_settled, identity_of, listed, marked, mutated, notified, observed, projected, release,
  replace_observed, replace_or_skip, send_replacement, start_called, state_of, states_answered,
  subscribed, tail_begins, with_identity, with_states, work_or_fail, work_step,
}

abbrev pub enqueued : Answer (Option Change) → Source → Source
enqueued (ok (some change)) s =
    schedule_buffered (record s { buffered = set_change change s.buffered })
enqueued (ok none) s = s
enqueued (err e) s = s

-- `enqueue`; where it throws it changes nothing.
unfoldable pub enqueue : Value → Source → Source
unfolding normalize_change set_change schedule_buffered
enqueue change s = if s.disposed then s else enqueued (normalize_change change) s

module _ (o : Options) where
  abbrev pub work_taken : Option Work → List Change → Source → Source
  work_taken (some w) cs s = record s { start = in_change w cs }
  work_taken none cs s = fail_start s

  abbrev pub take_change : Change → List Change → Source → Source
  take_change c cs s = work_taken (begin_change o c s) cs s

  -- One round of `while (buffered.size > 0)`.
  abbrev pub drain_buffered : List Change → Source → Source
  drain_buffered [] s = record s { start = activating }
  drain_buffered (c ∷ cs) s = take_change c cs (record s { buffered = [] })

  abbrev pub next_change : List Change → Source → Source
  next_change [] s = drain_buffered s.buffered s
  next_change (c ∷ cs) s = take_change c cs s

  -- One round of the loop over the batches.
  abbrev pub next_batch : List Value → Source → Source
  next_batch [] s = drain_buffered s.buffered (record s { phase = catching_up })
  next_batch (r ∷ rs) s = if s.disposed then fail_start s else record s {
    start = awaiting_states (take o.batch_size (r ∷ rs)) (drop o.batch_size (r ∷ rs));
  }

  -- One record of a batch; `further` is what follows where the record waits for nothing.
  abbrev pub take_record :
      Source × Progress
      → List (Value × Option Durable)
      → (later : List Value) → (further : Source) → Source
  take_record (s, waits w) rest later further = record s { start = in_record w rest later }
  take_record (s, done) rest later further = further
  take_record (s, fails) rest later further = fail_start s

  -- The records of a batch that are left, until the next await.
  unfoldable pub run_records :
      List (Value × Option Durable) → (later : List Value) → Source → Source
  unfolding begin_record begin_change fail_start
  run_records [] later s = next_batch later s
  run_records ((r, durable) ∷ rest) later s =
      let after = begin_record o r durable s in
      let further = run_records rest later after.0 in take_record after rest later further

  abbrev pub after_record :
      Source × Progress → List (Value × Option Durable) → (later : List Value) → Source
  after_record after rest later = take_record after rest later (run_records rest later after.0)

  abbrev pub after_change : Source × Progress → List Change → Source
  after_change (s, waits w) rest = record s { start = in_change w rest }
  after_change (s, done) rest = next_change rest s
  after_change (s, fails) rest = fail_start s

  abbrev pub checked_records : Answer (Unit {0}) → Value → Source → Source
  checked_records (ok u) records s =
      next_batch (elements records)
        (record s { records_listed = s.records_listed + length (elements records) })
  checked_records (err e) records s = fail_start s

  abbrev pub take_records : Answer Value → Source → Source
  take_records (ok records) s =
      checked_records (validate_source_records records o.max_partitions) records s
  take_records (err e) s = fail_start s

  -- The promise of `start`, when what it waits for comes back.
  unfoldable pub resume_start : Start → Event → Source → Source
  unfolding run_records work_step fail_start validate_source_records elements with_states
      schedule_buffered begin_change
  resume_start awaiting_subscribe (subscribed (ok u)) s = record s {
    subscription = installed;
    phase = backfill;
    start = awaiting_records;
  }
  resume_start awaiting_subscribe (subscribed (err e)) s = fail_start s
  resume_start awaiting_records (listed records) s = take_records records s
  resume_start (awaiting_states batch later) (states_answered (ok states) now) s =
      run_records (with_states states batch) later s
  resume_start (awaiting_states batch later) (states_answered (err e) now) s = fail_start s
  resume_start (in_record w rest later) event s = after_record (work_step o event w s) rest later
  resume_start (in_change w rest) event s = after_change (work_step o event w s) rest
  resume_start activating (activated (ok u)) s =
      schedule_buffered (record s { phase = live; start = start_settled })
  resume_start activating (activated (err e)) s = fail_start s
  resume_start marking marked s = record s { start = start_settled }
  resume_start _ _ s = s

  abbrev pub after_tail : Source × Progress → Source
  after_tail (s, waits w) = record s { tail = working w }
  after_tail (s, done) = record s { tail = resolved }
  after_tail (s, fails) = fail_tail s

  abbrev pub tail_taken : Option Work → List Change → Source → Source
  tail_taken (some w) cs s = record s { tail = working w; queue = cs }
  tail_taken none cs s = fail_tail (record s { queue = cs })

  abbrev pub begin_tail : Tail → List Change → Source → Source
  begin_tail resolved (c ∷ cs) s = tail_taken (begin_change o c s) cs s
  begin_tail rejected (c ∷ cs) s = fail_tail (record s { queue = cs })
  begin_tail _ _ s = s

  -- The promise `tail`, the same.
  unfoldable pub resume_tail : Tail → Event → Source → Source
  unfolding work_step begin_change fail_tail
  resume_tail (working w) event s = after_tail (work_step o event w s)
  resume_tail tail_marking marked s = record s { tail = rejected }
  resume_tail tail tail_begins s = begin_tail tail s.queue s
  resume_tail _ _ s = s

  -- What waits while the promise of `start` is at that place.
  abbrev pub resumed : Start → Event → Source → Source
  resumed not_started event s = s
  resumed start_settled event s = resume_tail s.tail event s
  resumed start event s = resume_start start event s

  abbrev pub call_start : Start → Source → Source
  call_start not_started s =
      if s.disposed then s else record s { phase = subscribing; start = awaiting_subscribe }
  call_start _ s = s

  unfoldable pub step : Source → Event → Source
  unfolding close finish_close enqueue resume_start resume_tail
  step s start_called = call_start s.start s
  step s close_called = close s
  step s close_settled = finish_close s
  step s (notified change) = enqueue change s
  step s event = resumed s.start event s

  unfoldable pub run : Source → List Event → Source
  unfolding step
  run s [] = s
  run s (event ∷ events) = run (step s event) events
