-- ===== src/ViewSource/Step/Promises.antt =====
-- What a view source promises in every order of events.
use qq_index.Prelude.{
  ◌+◌, ◌≤◌, ◌≡◌, refl, subst, true, false, List, [], arith, ◌⊎◌, inl, inr, Bool-cases,
}
use qq_index.ViewSource.State.{Source, is_live, Start, activating, start_settled, close, init}
use qq_index.ViewSource.Work.{Event, Options}
use qq_index.ViewSource.Step.{run}
use qq_index.ViewSource.Step.Invariant.{Accounted, is_settled, remaining}
use qq_index.ViewSource.Step.Behind.{Accounted-listed}
use qq_index.ViewSource.Step.Preserved.{Inv-run, init-Inv}

abbrev pub after : Options → List Event → Source
after o events = run o init events

-- `start` has asked for the lifecycle `ready`, or has come to its end with it.
abbrev pub Announced : Source → Type 0
Announced s = (s.start ≡ activating) ⊎ (is_live s.phase ≡ true)

settled_lem : (start : Start) → is_settled start ≡ true → start ≡ start_settled
unfolding is_settled
settled_lem start_settled e = refl
settled_lem start e = cc

closed_again : (s : Source) → s.disposed ≡ true → close s ≡ s
unfolding close
closed_again s d = ground (arith, d)

-- Whatever the order of events, when `start` asks for the lifecycle `ready`, and as long as the phase is live, there
-- are at least as many partitions skipped or committed as records listed.
pub ready_complete :
    (o : Options) (events : List Event)
    → Announced (after o events)
    → (after o events).records_listed
      ≤ (after o events).partitions_skipped + (after o events).partitions_committed
unfolding Accounted remaining
ready_complete o events (inl e) =
    let s = after o events in
    let i = Inv-run o init events init-Inv in
    let a : Accounted activating (is_live s.phase) s.records_listed
        (s.partitions_skipped + s.partitions_committed) =
      subst
        (λ st.
          Accounted st (is_live s.phase) s.records_listed
            (s.partitions_skipped + s.partitions_committed))
        e i.accounted in
    omega (arith, a)
ready_complete o events (inr l) =
    let s = after o events in
    let i = Inv-run o init events init-Inv in
    elim (Bool-cases (is_settled s.start)) [
      | inl e ↦ Accounted-listed s.start _ _ _ (settled_lem s.start e) i.accounted l
      | inr e ↦ absurd (cc (l, i.starting e))
    ]

-- Whatever the order of events, a source that is live and not disposed has no change in its buffer.
pub live_unbuffered :
    (o : Options) (events : List Event)
    → is_live (after o events).phase ≡ true
    → (after o events).disposed ≡ false
    → (after o events).buffered ≡ []
live_unbuffered o events = (Inv-run o init events init-Inv).unbuffered
