-- ===== src/ViewSource/Step/Invariant.antt =====
-- The invariant of a view source.
use Prim.Native.String.{String}
use qq_index.Prelude.{
  ℕ, ◌+◌, ◌≤◌, ◌≡◌, suc, refl, ap, ◌++◌, Bool, true, false, Option, none, some, List, [], ◌∷◌,
  arith, length, take, drop, length-append, take-append-drop, ok, err, if-elim,
}
use qq_index.Client.Values.{Value, elements}
use qq_index.ViewSource.Records.{Change, Durable, validate_source_records}
use qq_index.ViewSource.State.{
  Source, is_live, Work, Progress, waits, done, fails, Start, not_started, awaiting_subscribe,
  awaiting_records, awaiting_states, in_record, in_change, activating, marking, start_settled,
  fail_start, failed, catching_up,
}
use qq_index.ViewSource.Work.{Answer, Options, begin_change, begin_record, with_states}
use qq_index.ViewSource.Step.{
  work_taken, drain_buffered, next_change, next_batch, run_records, after_record, after_change,
  checked_records, take_record, take_records,
}
use qq_index.ViewSource.Work.Kept.{Kept, is_replacing, Advanced, begin_record-Works}

-- The records that the promise of `start` has not come to the end of.
unfoldable pub remaining : Start → ℕ
remaining (awaiting_states batch later) = length batch + length later
remaining (in_record w rest later) = 1 + (length rest + length later)
remaining _ = 0

unfoldable pub is_settled : Start → Bool
is_settled start_settled = true
is_settled _ = false

-- Every record of the `listed` ones that is not left is among those that are settled: skipped or committed.
unfoldable pub Accounted : Start → (is_live : Bool) → (listed settled : ℕ) → Type 0
Accounted not_started l n m = n ≡ 0
Accounted awaiting_subscribe l n m = n ≡ 0
Accounted awaiting_records l n m = n ≡ 0
Accounted marking l n m = Unit
Accounted start_settled l n m = l ≡ true → n ≤ m
Accounted (in_record w rest later) l n m =
    (is_replacing w ≡ true) × (n ≤ m + remaining (in_record w rest later))
Accounted start l n m = n ≤ m + remaining start

abbrev pub AccountedFor : Source → Type 0
AccountedFor s =
    Accounted s.start (is_live s.phase) s.records_listed
      (s.partitions_skipped + s.partitions_committed)

pub record Inv (s : Source) : Type 0 where
  pub accounted : AccountedFor s
  pub starting : is_settled s.start ≡ false → is_live s.phase ≡ false
  pub unbuffered : is_live s.phase ≡ true → s.disposed ≡ false → s.buffered ≡ []

-- A state that is not live.
abbrev pub NotLive : Source → Type 0
NotLive s = is_live s.phase ≡ false

pub not_live : (s : Source) → NotLive s → AccountedFor s → Inv s
not_live s h a = record { accounted = a; starting = λ e. h; unbuffered = λ e. absurd (cc) }

pub fail_start-Inv : (s : Source) → NotLive s → Inv (fail_start s)
unfolding fail_start Accounted
fail_start-Inv s h =
    if-elim Inv s.disposed (record s { start = start_settled })
      (record s { phase = failed; start = marking })
      (λ e. not_live (record s { start = start_settled }) h (λ live. absurd (cc)))
      (λ e. not_live (record s { phase = failed; start = marking }) refl tt)

-- What is left of the records before the promise of `start` waits again.
abbrev Left : ℕ → Source → Type 0
Left n s = NotLive s × (s.records_listed ≤ s.partitions_skipped + s.partitions_committed + n)

Left-Kept : (n m : ℕ) (s s' : Source) → Kept s s' → m ≤ n → Left m s → Left n s'
Left-Kept n m s s' k h l = (
  rw k.phase l.0,
  omega (arith, k.records_listed, k.partitions_skipped, k.partitions_committed, l.1),
)

Left-Advanced :
    (n : ℕ) (s s' : Source) → Kept s s' → Advanced s s' done → Left (n + 1) s → Left n s'
unfolding Advanced
Left-Advanced n s s' k a l = (rw k.phase l.0, omega (arith, k.records_listed, a, l.1))

module _ (o : Options) where
  work_taken-Inv :
      (w : Option Work) (cs : List Change) (s : Source) → Left 0 s → Inv (work_taken o w cs s)
  unfolding fail_start Accounted remaining
  work_taken-Inv none cs s l = fail_start-Inv s l.0
  work_taken-Inv (some w) cs s l = not_live (record s { start = in_change w cs }) l.0 l.1

  drain_buffered-Inv : (cs : List Change) (s : Source) → Left 0 s → Inv (drain_buffered o cs s)
  unfolding Accounted remaining
  drain_buffered-Inv [] s l = not_live (record s { start = activating }) l.0 l.1
  drain_buffered-Inv (c ∷ cs) s l =
      let s' : Source = record s { buffered = [] } in work_taken-Inv (begin_change o c s') cs s' l

  next_change-Inv : (cs : List Change) (s : Source) → Left 0 s → Inv (next_change o cs s)
  next_change-Inv [] s l = drain_buffered-Inv s.buffered s l
  next_change-Inv (c ∷ cs) s l = work_taken-Inv (begin_change o c s) cs s l

  next_batch-Inv : (rs : List Value) (s : Source) → Left (length rs) s → Inv (next_batch o rs s)
  unfolding Accounted remaining
  next_batch-Inv [] s l =
      drain_buffered-Inv s.buffered (record s { phase = catching_up }) (refl, l.1)
  next_batch-Inv (r ∷ rs) s l =
      let front : List Value = take o.batch_size (r ∷ rs) in
      let back : List Value = drop o.batch_size (r ∷ rs) in
      let split : length (front ++ back) ≡ length (r ∷ rs) =
        ap length (take-append-drop o.batch_size (r ∷ rs)) in
      let next : Source = record s { start = awaiting_states front back } in
      if-elim Inv s.disposed (fail_start s) next (λ e. fail_start-Inv s l.0)
        (λ e. not_live next l.0 (omega (arith, l.1, split, length-append front back)))

  -- A record that has come back from an await, or is begun.
  take_record-Inv :
      (after : Source × Progress) (rest : List (Value × Option Durable)) (later : List Value)
      (s : Source)
      → Kept s after.0
      → Advanced s after.0 after.1
      → Left (length rest + length later + 1) s
      → (further : Source) → (Left (length rest + length later) after.0 → Inv further)
      → Inv (take_record o after rest later further)
  unfolding Accounted remaining Advanced fail_start
  take_record-Inv (s', waits w) rest later s k a l further f =
      not_live (record s' { start = in_record w rest later }) (rw k.phase l.0)
        (a, omega (arith, k.records_listed, k.partitions_skipped, k.partitions_committed, l.1))
  take_record-Inv (s', done) rest later s k a l further f =
      f (Left-Advanced (length rest + length later) s s' k a l)
  take_record-Inv (s', fails) rest later s k a l further f = fail_start-Inv s' (rw k.phase l.0)

  pub run_records-Inv :
      (rs : List (Value × Option Durable)) (later : List Value) (s : Source)
      → Left (length rs + length later) s
      → Inv (run_records o rs later s)
  unfolding run_records
  run_records-Inv [] later s l = next_batch-Inv later s (l.0, omega (arith, l.1))
  run_records-Inv ((r, durable) ∷ rest) later s l =
      let n : ℕ = length rest + length later in
      let (k, a) = begin_record-Works o r durable s in
      let after = begin_record o r durable s in
      take_record-Inv after rest later s k a (l.0, omega (arith, l.1))
        (run_records o rest later after.0) (λ left. run_records-Inv rest later after.0 left)

  pub after_record-Inv :
      (after : Source × Progress) (rest : List (Value × Option Durable)) (later : List Value)
      (s : Source)
      → Kept s after.0
      → Advanced s after.0 after.1
      → Left (length rest + length later + 1) s
      → Inv (after_record o after rest later)
  after_record-Inv after rest later s k a l =
      take_record-Inv after rest later s k a l (run_records o rest later after.0)
        (λ left. run_records-Inv rest later after.0 left)

  pub after_change-Inv :
      (after : Source × Progress) (rest : List Change) (s : Source)
      → Kept s after.0
      → Left 0 s
      → Inv (after_change o after rest)
  unfolding Accounted remaining fail_start
  after_change-Inv (s', waits w) rest s k l =
      let left = Left-Kept 0 0 s s' k (omega arith) l in
      not_live (record s' { start = in_change w rest }) left.0 left.1
  after_change-Inv (s', done) rest s k l =
      next_change-Inv rest s' (Left-Kept 0 0 s s' k (omega arith) l)
  after_change-Inv (s', fails) rest s k l = fail_start-Inv s' (rw k.phase l.0)

  checked_records-Inv :
      (checked : Answer (Unit {0})) (records : Value) (s : Source)
      → NotLive s
      → s.records_listed ≡ 0
      → Inv (checked_records o checked records s)
  unfolding fail_start
  checked_records-Inv (ok u) records s h e =
      next_batch-Inv (elements records)
        (record s { records_listed = s.records_listed + length (elements records) })
        (h, omega (arith, e))
  checked_records-Inv (err x) records s h e = fail_start-Inv s h

  pub take_records-Inv :
      (records : Answer Value) (s : Source)
      → NotLive s
      → s.records_listed ≡ 0
      → Inv (take_records o records s)
  unfolding validate_source_records fail_start
  take_records-Inv (ok records) s h e =
      checked_records-Inv (validate_source_records records o.max_partitions) records s h e
  take_records-Inv (err x) s h e = fail_start-Inv s h

  pub length-with_states :
      (states : List (String × Durable)) (rs : List Value)
      → length (with_states states rs) ≡ length rs
  unfolding with_states
  length-with_states states [] = refl
  length-with_states states (r ∷ rs) = ap (λ n. suc n) (length-with_states states rs)
