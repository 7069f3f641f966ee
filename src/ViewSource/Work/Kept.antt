-- ===== src/ViewSource/Work/Kept.antt =====
-- What the work on one partition keeps of a view source's state.
use Prim.Native.String.{String}
use qq_index.Prelude.{
  ℕ, ◌+◌, ◌≤◌, ◌≡◌, refl, Bool, true, false, Option, none, some, List, [], ◌∷◌, arith, ok, err,
}
use qq_index.Client.Values.{Value, get}
use qq_index.ViewSource.Records.{Durable, or_else, can_skip, validate_observation}
use qq_index.Client.Requests.{text_or_empty}
use qq_index.ViewSource.Replacement.{replacement}
use qq_index.ViewSource.State.{
  Source, observing, projecting, mutating, Work, replacing, reading_state, deleting, Progress,
  waits, done, fails,
}
use qq_index.ViewSource.Work.{
  Answer, replace_observed, Event, observed, projected, mutated, states_answered, Options,
  after_check, identity_of, work_or_fail, replace_or_skip, with_identity, begin_record,
  send_replacement, release, work_step,
}

-- All but the counts of partitions and what was sent.
pub record Kept (s s' : Source) : Type 0 where
  pub phase : s'.phase ≡ s.phase
  pub disposed : s'.disposed ≡ s.disposed
  pub start : s'.start ≡ s.start
  pub tail : s'.tail ≡ s.tail
  pub queue : s'.queue ≡ s.queue
  pub buffered : s'.buffered ≡ s.buffered
  pub subscription : s'.subscription ≡ s.subscription
  pub records_listed : s'.records_listed ≡ s.records_listed
  pub partitions_skipped : s.partitions_skipped ≤ s'.partitions_skipped
  pub partitions_committed : s.partitions_committed ≤ s'.partitions_committed

unfoldable pub is_replacing : Work → Bool
is_replacing (replacing session identity at) = true
is_replacing _ = false

-- Work on a record goes on as such, and at its end the record is skipped or committed.
unfoldable pub Advanced : Source → Source → Progress → Type 0
Advanced s s' (waits w) = is_replacing w ≡ true
Advanced s s' done =
    s.partitions_skipped + s.partitions_committed + 1
    ≤ s'.partitions_skipped + s'.partitions_committed
Advanced s s' fails = Unit

-- A change of the other counts, and of what was sent.
abbrev pub counted :
    (s : Source) (seen skipped committed deleted : ℕ) (sent : List Value)
    → s.partitions_skipped ≤ skipped
    → s.partitions_committed ≤ committed
    → Kept s (record s {
      partitions_observed = seen;
      partitions_skipped = skipped;
      partitions_committed = committed;
      partitions_deleted = deleted;
      sent = sent;
    })
counted s seen skipped committed deleted sent h k = record {
  phase = refl;
  disposed = refl;
  start = refl;
  tail = refl;
  queue = refl;
  buffered = refl;
  subscription = refl;
  records_listed = refl;
  partitions_skipped = h;
  partitions_committed = k;
}

pub Kept-refl : (s : Source) → Kept s s
Kept-refl s = counted s _ _ _ _ _ (omega arith) (omega arith)

replace_observed-replacing :
    (s : Source) (session identity : String) (w : Work)
    → replace_observed s session identity ≡ some w
    → is_replacing w ≡ true
unfolding is_replacing
replace_observed-replacing s session identity w e = ground arith

module _ (o : Options) where
  abbrev pub Works : Source → Work → Source × Progress → Type 0
  Works s w (s', p) = Kept s s' × (is_replacing w ≡ true → Advanced s s' p)

  check-Works :
      (session identity : String) (observation : Value) (checked : Answer (Unit {0})) (s : Source)
      → let s' : Source = record s { partitions_observed = s.partitions_observed + 1 } in
        Works s
          (replacing session identity observing)
          (after_check o session identity observation checked s')
  unfolding is_replacing Advanced
  check-Works session identity observation (ok u) s =
      (counted s _ _ _ _ _ (omega arith) (omega arith), λ h. refl)
  check-Works session identity observation (err e) s =
      (counted s _ _ _ _ _ (omega arith) (omega arith), λ h. tt)

  send-Works :
      (session identity : String) (observation : Value) (mutation : Answer Value) (s : Source)
      → Works s
          (replacing session identity (projecting observation))
          (send_replacement o session identity observation mutation s)
  unfolding is_replacing Advanced
  send-Works session identity observation (ok m) s =
      (counted s _ _ _ _ _ (omega arith) (omega arith), λ h. refl)
  send-Works session identity observation (err e) s = (Kept-refl s, λ h. tt)

  release-Advanced :
      (released : Bool) (s : Source)
      → Advanced s
          (record s { partitions_committed = s.partitions_committed + 1 })
          (release o released)
  unfolding Advanced
  release-Advanced true s = omega arith
  release-Advanced false s = tt

  pub work_step-Works : (event : Event) (w : Work) (s : Source) → Works s w (work_step o event w s)
  unfolding work_step is_replacing Advanced
  work_step-Works (observed (ok observation)) (replacing session identity observing) s =
      check-Works session identity observation (validate_observation observation session) s
  work_step-Works (observed (err e)) (replacing session identity observing) s =
      (Kept-refl s, λ h. tt)
  work_step-Works (projected (ok value)) (replacing session identity (projecting observation)) s =
      send-Works session identity observation
        (replacement o.text_of_number o.encoded_size o.view session identity observation value) s
  work_step-Works (projected (err e)) (replacing session identity (projecting observation)) s =
      (Kept-refl s, λ h. tt)
  work_step-Works (mutated (ok u)) (replacing session identity (mutating observation)) s = (
    counted s _ _ _ _ _ (omega arith) (omega arith),
    λ h. release-Advanced (o.releases observation) s,
  )
  work_step-Works (mutated (err e)) (replacing session identity (mutating observation)) s =
      (Kept-refl s, λ h. tt)
  work_step-Works (states_answered (ok []) now) (reading_state session) s = (Kept-refl s, λ h. cc)
  work_step-Works (states_answered (ok ((key, durable) ∷ states)) now) (reading_state session) s =
      (counted s _ _ _ _ _ (omega arith) (omega arith), λ h. cc)
  work_step-Works (states_answered (err e) now) (reading_state session) s = (Kept-refl s, λ h. tt)
  work_step-Works (mutated (ok u)) deleting s =
      (counted s _ _ _ _ _ (omega arith) (omega arith), λ h. cc)
  work_step-Works (mutated (err e)) deleting s = (Kept-refl s, λ h. tt)
  work_step-Works event w s = (Kept-refl s, λ h. h)

  replace-Works :
      (w : Option Work) (s : Source)
      → ((v : Work) → w ≡ some v → is_replacing v ≡ true)
      → let (s', p) = work_or_fail o w s in Kept s s' × Advanced s s' p
  unfolding Advanced
  replace-Works none s h = (Kept-refl s, tt)
  replace-Works (some v) s h = (Kept-refl s, h v refl)

  skip-Works :
      (skip : Answer Bool) (session identity : String) (s : Source)
      → let (s', p) = replace_or_skip o skip session identity s in Kept s s' × Advanced s s' p
  unfolding Advanced is_replacing
  skip-Works (err e) session identity s = (Kept-refl s, tt)
  skip-Works (ok true) session identity s =
      (counted s _ _ _ _ _ (omega arith) (omega arith), omega arith)
  skip-Works (ok false) session identity s =
      replace-Works (replace_observed s session identity) s
        (replace_observed-replacing s session identity)

  identity-Works :
      (identity : Answer String) (r : Value) (durable : Option Durable) (s : Source)
      → let (s', p) = with_identity o identity r durable s in Kept s s' × Advanced s s' p
  unfolding Advanced can_skip
  identity-Works (err e) r durable s = (Kept-refl s, tt)
  identity-Works (ok identity) r durable s =
      skip-Works (can_skip r durable identity) (text_or_empty (get "sessionId" r)) identity s

  pub begin_record-Works :
      (r : Value) (durable : Option Durable) (s : Source)
      → let (s', p) = begin_record o r durable s in Kept s s' × Advanced s s' p
  unfolding begin_record
  begin_record-Works r durable s =
      identity-Works (identity_of o (or_else (get "record" r) r)) r durable s
