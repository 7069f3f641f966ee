-- ===== src/ViewSource/State.antt =====
-- src/dsh-alpha4-view-source.mjs: the variables of `createDshAlpha4ViewSource`, and where its calls in flight wait. The
-- timings are left out.
use Prim.Native.String.{String}
use qq_index.Prelude.{ℕ, Bool, true, false, not, ◌||◌, Option, List, [], ◌∷◌, ◌++◌, if◌then◌else◌}
use qq_index.Client.Values.{Value, strict_equal}
use qq_index.ViewSource.Records.{Change, Durable}

pub data Phase : Type 0 where
  idle subscribing backfill catching_up live failed disposing closed : Phase

abbrev pub is_live : Phase → Bool
is_live live = true
is_live _ = false

-- Where `replaceObserved` waits; `observation` is disposed of at its end.
pub data Replacing : Type 0 where
  observing : Replacing
  projecting mutating : (observation : Value) → Replacing

-- Where `reconcileRecord` or `reconcileChange` waits.
pub data Work : Type 0 where
  replacing : (session identity : String) → Replacing → Work
  reading_state : (session : String) → Work
  deleting : Work

-- What became of it after one more await.
pub data Progress : Type 0 where
  waits : Work → Progress
  done fails : Progress

-- Where the promise of `start` waits: the records of a batch that are left stand with what the index holds of them.
pub data Start : Type 0 where
  not_started awaiting_subscribe awaiting_records : Start
  awaiting_states : (batch later : List Value) → Start
  in_record : Work → (rest : List (Value × Option Durable)) → (later : List Value) → Start
  in_change : Work → (rest : List Change) → Start
  activating marking start_settled : Start

-- The promise `tail`, and the changes that stand in line behind it.
pub data Tail : Type 0 where
  resolved rejected tail_marking : Tail
  working : Work → Tail

pub data Subscription : Type 0 where
  not_installed installed removed : Subscription

pub record Source : Type 0 where
  pub phase : Phase
  pub disposed : Bool
  pub closing : Bool
  pub subscription : Subscription
  pub start : Start
  pub tail : Tail
  pub queue : List Change
  pub buffered : List Change
  pub records_listed : ℕ
  pub partitions_observed : ℕ
  pub partitions_skipped : ℕ
  pub partitions_committed : ℕ
  pub partitions_deleted : ℕ
  pub sent : List Value

unfoldable pub init : Source
init = record {
  phase = idle;
  disposed = false;
  closing = false;
  subscription = not_installed;
  start = not_started;
  tail = resolved;
  queue = [];
  buffered = [];
  records_listed = 0;
  partitions_observed = 0;
  partitions_skipped = 0;
  partitions_committed = 0;
  partitions_deleted = 0;
  sent = [];
}

-- `buffered.set(sessionId, change)`: a key keeps its place.
unfoldable pub set_change : Change → List Change → List Change
unfolding strict_equal
set_change change [] = change ∷ []
set_change change (c ∷ cs) =
    if strict_equal c.session change.session then change ∷ cs else c ∷ set_change change cs

unfoldable pub schedule_buffered : Source → Source
schedule_buffered s =
    if s.disposed || not (is_live s.phase)
    then s
    else record s { buffered = []; queue = s.queue ++ s.buffered }

-- The catch of `start`.
unfoldable pub fail_start : Source → Source
fail_start s =
    if s.disposed
    then record s { start = start_settled }
    else record s { phase = failed; start = marking }

-- `fail`, on the promise `tail`.
unfoldable pub fail_tail : Source → Source
fail_tail s =
    if s.disposed
    then record s { tail = rejected }
    else record s { phase = failed; tail = tail_marking }

abbrev pub removed_if_installed : Subscription → Subscription
removed_if_installed installed = removed
removed_if_installed other = other

unfoldable pub close : Source → Source
close s = if s.disposed then s else record s {
  disposed = true;
  closing = true;
  phase = disposing;
  subscription = removed_if_installed s.subscription;
}

abbrev pub at_rest : Tail → List Change → Bool
at_rest resolved [] = true
at_rest rejected [] = true
at_rest _ _ = false

-- The end of `close`, once the tail is settled; it never comes where the disposer throws at once.
unfoldable pub finish_close : Source → Source
finish_close s =
    if not s.closing || not (at_rest s.tail s.queue)
    then s
    else record s { buffered = []; phase = closed; closing = false }
