-- ===== src/ViewSource/Work.antt =====
-- src/dsh-alpha4-view-source.mjs: the work on one partition, with its awaits, and the options and the answers that the
-- steps read. `source_identity` is the option of that name, `releases` says whether an observation can be disposed of,
-- and an answer that is an error is a promise that rejects.
pub mod Kept
use Prim.Native.String.{String}
use qq_index.Prelude.{
  ℕ, zero, suc, ◌+◌, Bool, true, false, not, ◌||◌, Option, none, some, List, [], ◌∷◌, ◌++◌, length,
  take, drop, if◌then◌else◌, Outcome, ok, err, ◌>>=◌,
}
use qq_index.Client.Values.{Value, get, same_text, elements}
use qq_index.Client.Requests.{text_or_empty}
use qq_index.ViewSource.Checks.{ViewSourceError}
use qq_index.ViewSource.Records.{
  Change, ChangeKind, upsert, delete, Durable, or_else, can_skip, normalize_change,
  validate_observation, validate_source_records,
}
use qq_index.ViewSource.Replacement.{checked_identity, replacement, deletion}
use qq_index.ViewSource.State.{
  Source, Phase, subscribing, backfill, catching_up, live, Replacing, observing, projecting,
  mutating, Work, replacing, reading_state, deleting, Progress, waits, done, fails, Start,
  not_started, awaiting_subscribe, awaiting_records, awaiting_states, in_record, in_change,
  activating, marking, start_settled, Tail, resolved, rejected, tail_marking, working, installed,
  set_change, schedule_buffered, fail_start, fail_tail, close, finish_close,
}

abbrev pub Answer : Type 0 → Type 0
Answer A = Outcome ViewSourceError A

pub data Event : Type 0 where
  start_called close_called close_settled tail_begins marked : Event
  notified : Value → Event
  subscribed mutated activated : Answer (Unit {0}) → Event
  listed observed projected : Answer Value → Event
  states_answered : Answer (List (String × Durable)) → (now : String) → Event

-- The options that the steps read.
pub record Options : Type 0 where
  pub view : Value
  pub max_partitions : ℕ
  pub batch_size : ℕ
  pub source_identity : Value → Answer Value
  pub releases : Value → Bool
  pub text_of_number : ℕ → String
  pub encoded_size : Value → Option ℕ

-- `byPartition.get`, where the last state of a partition counts.
unfoldable pub state_of : String → List (String × Durable) → Option Durable
state_of session [] = none
state_of session ((key, durable) ∷ states) = elim (state_of session states) [
  | some later ↦ some later
  | none ↦ if same_text key session then some durable else none
]

unfoldable pub with_states : List (String × Durable) → List Value → List (Value × Option Durable)
unfolding state_of
with_states states [] = []
with_states states (r ∷ rs) =
    (r, state_of (text_or_empty (get "sessionId" r)) states) ∷ with_states states rs

-- `replaceObserved`, until its first await; none where it throws.
abbrev pub replace_observed : Source → (session identity : String) → Option Work
replace_observed s session identity =
    if s.disposed then none else some (replacing session identity observing)

module _ (o : Options) where
  unfoldable pub identity_of : Value → Answer String
  unfolding checked_identity
  identity_of v = o.source_identity v >>= checked_identity

  -- `reconcileChange`, until its first await; none where it throws.
  unfoldable pub begin_change : Change → Source → Option Work
  unfolding identity_of
  begin_change c s = elim c.kind [
    | delete ↦ some (reading_state (text_or_empty c.session))
    | upsert ↦ elim (identity_of c.source) [
      | ok identity ↦ replace_observed s (text_or_empty c.session) identity
      | err e ↦ none
    ]
  ]

  abbrev pub work_or_fail : Option Work → Source → Source × Progress
  work_or_fail none s = (s, fails)
  work_or_fail (some w) s = (s, waits w)

  -- What follows `canSkip`.
  abbrev pub replace_or_skip :
      Answer Bool → (session identity : String) → Source → Source × Progress
  replace_or_skip (ok true) session identity s =
      (record s { partitions_skipped = s.partitions_skipped + 1 }, done)
  replace_or_skip (ok false) session identity s =
      work_or_fail (replace_observed s session identity) s
  replace_or_skip (err e) session identity s = (s, fails)

  abbrev pub with_identity : Answer String → Value → Option Durable → Source → Source × Progress
  with_identity (ok identity) r durable s =
      replace_or_skip (can_skip r durable identity) (text_or_empty (get "sessionId" r)) identity s
  with_identity (err e) r durable s = (s, fails)

  -- `reconcileRecord`, the same.
  unfoldable pub begin_record : Value → Option Durable → Source → Source × Progress
  unfolding identity_of can_skip
  begin_record r durable s = with_identity (identity_of (or_else (get "record" r) r)) r durable s

  -- What follows the check of an observation.
  abbrev pub after_check :
      (session identity : String)
      → (observation : Value) → Answer (Unit {0})
      → Source
      → Source × Progress
  after_check session identity observation (ok u) s =
      (s, waits (replacing session identity (projecting observation)))
  after_check session identity observation (err e) s = (s, fails)

  -- The call of `mutateView`, for a replacement.
  abbrev pub send_replacement :
      (session identity : String)
      → (observation : Value) → Answer Value
      → Source
      → Source × Progress
  send_replacement session identity observation (ok mutation) s = (
    record s { sent = mutation ∷ s.sent },
    waits (replacing session identity (mutating observation)),
  )
  send_replacement session identity observation (err e) s = (s, fails)

  -- `disposeObservation`, in the `finally`.
  abbrev pub release : Bool → Progress
  release true = done
  release false = fails

  -- `reconcileRecord` or `reconcileChange`, when what it waits for comes back.
  unfoldable pub work_step : Event → Work → Source → Source × Progress
  unfolding validate_observation replacement deletion
  work_step (observed (ok observation)) (replacing session identity observing) s =
      after_check session identity observation (validate_observation observation session)
        (record s { partitions_observed = s.partitions_observed + 1 })
  work_step (observed (err e)) (replacing session identity observing) s = (s, fails)
  work_step (projected (ok value)) (replacing session identity (projecting observation)) s =
      send_replacement session identity observation
        (replacement o.text_of_number o.encoded_size o.view session identity observation value) s
  work_step (projected (err e)) (replacing session identity (projecting observation)) s = (s, fails)
  work_step (mutated (ok u)) (replacing session identity (mutating observation)) s = (
    record s { partitions_committed = s.partitions_committed + 1 },
    release (o.releases observation),
  )
  work_step (mutated (err e)) (replacing session identity (mutating observation)) s = (s, fails)
  work_step (states_answered (ok []) now) (reading_state session) s = (s, done)
  work_step (states_answered (ok ((key, durable) ∷ states)) now) (reading_state session) s =
      (record s { sent = deletion o.view session now durable ∷ s.sent }, waits deleting)
  work_step (states_answered (err e) now) (reading_state session) s = (s, fails)
  work_step (mutated (ok u)) deleting s =
      (record s { partitions_deleted = s.partitions_deleted + 1 }, done)
  work_step (mutated (err e)) deleting s = (s, fails)
  work_step event w s = (s, waits w)
