-- ===== src/ViewSource/Step/Behind.antt =====
-- What runs behind the promise `tail` of a view source keeps its invariant.
use qq_index.Prelude.{ℕ, ◌≤◌, ◌≡◌, subst, Bool, true, Option, none, some, List, ◌∷◌, arith, if-elim}
use qq_index.ViewSource.Records.{Change}
use qq_index.ViewSource.State.{
  Source, is_live, Work, Progress, waits, done, fails, Start, start_settled, Tail, resolved,
  rejected, tail_marking, working, fail_tail, failed,
}
use qq_index.ViewSource.Work.{Event, tail_begins, marked, Options, begin_change, work_step}
use qq_index.ViewSource.Step.{resume_tail, after_tail, begin_tail, tail_taken}
use qq_index.ViewSource.Work.Kept.{Kept, Kept-refl, work_step-Works}
use qq_index.ViewSource.Step.Invariant.{Inv, Accounted, is_settled}

-- What a call that runs behind `tail` does.
pub record Tailed (s s' : Source) : Type 0 where
  start : s'.start ≡ s.start
  phase : is_live s'.phase ≡ true → is_live s.phase ≡ true
  disposed : s'.disposed ≡ s.disposed
  buffered : s'.buffered ≡ s.buffered
  records_listed : s'.records_listed ≡ s.records_listed
  partitions_skipped : s.partitions_skipped ≤ s'.partitions_skipped
  partitions_committed : s.partitions_committed ≤ s'.partitions_committed

Kept-Tailed :
    (s s' : Source) (tail : Tail) (queue : List Change)
    → Kept s s'
    → Tailed s (record s' { tail = tail; queue = queue })
Kept-Tailed s s' tail queue k = record {
  start = k.start;
  phase = λ l. cc;
  disposed = k.disposed;
  buffered = k.buffered;
  records_listed = k.records_listed;
  partitions_skipped = k.partitions_skipped;
  partitions_committed = k.partitions_committed;
}

fail_tail-Tailed :
    (s s' : Source) (queue : List Change)
    → Kept s s'
    → Tailed s (fail_tail (record s' { queue = queue }))
unfolding fail_tail
fail_tail-Tailed s s' queue k =
    if-elim (Tailed s) s'.disposed (record s' { tail = rejected; queue = queue })
      (record s' { phase = failed; tail = tail_marking; queue = queue })
      (λ e. Kept-Tailed s s' rejected queue k)
      (λ e. record {
        start = k.start;
        phase = λ l. absurd (cc);
        disposed = k.disposed;
        buffered = k.buffered;
        records_listed = k.records_listed;
        partitions_skipped = k.partitions_skipped;
        partitions_committed = k.partitions_committed;
      })

Accounted-settled :
    (start : Start) (l : Bool) (n m : ℕ)
    → start ≡ start_settled
    → (l ≡ true → n ≤ m)
    → Accounted start l n m
unfolding Accounted
Accounted-settled start l n m e h = rw e h

pub Accounted-listed :
    (start : Start) (l : Bool) (n m : ℕ)
    → start ≡ start_settled
    → Accounted start l n m
    → l ≡ true
    → n ≤ m
unfolding Accounted
Accounted-listed start l n m e a = subst (λ st. Accounted st l n m) e a

pub Tailed-Inv : (s s' : Source) → s.start ≡ start_settled → Tailed s s' → Inv s → Inv s'
unfolding is_settled
Tailed-Inv s s' e t i = record {
  accounted = Accounted-settled s'.start _ _ _ (cc (e, t.start)) (λ l. omega (
    arith,
    Accounted-listed s.start _ _ _ e i.accounted (t.phase l),
    t.records_listed,
    t.partitions_skipped,
    t.partitions_committed,
  ));
  starting = λ h. absurd (cc (rw (t.start, e) at h));
  unbuffered = λ l d. cc (t.buffered, i.unbuffered (t.phase l) (cc (d, t.disposed)));
}

module _ (o : Options) where
  after_tail-Tailed :
      (after : Source × Progress) (s : Source) → Kept s after.0 → Tailed s (after_tail o after)
  unfolding fail_tail
  after_tail-Tailed (s', waits w) s k = Kept-Tailed s s' (working w) s'.queue k
  after_tail-Tailed (s', done) s k = Kept-Tailed s s' resolved s'.queue k
  after_tail-Tailed (s', fails) s k = fail_tail-Tailed s s' s'.queue k

  tail_taken-Tailed :
      (w : Option Work) (cs : List Change) (s : Source) → Tailed s (tail_taken o w cs s)
  unfolding fail_tail
  tail_taken-Tailed (some w) cs s = Kept-Tailed s s (working w) cs (Kept-refl s)
  tail_taken-Tailed none cs s = fail_tail-Tailed s s cs (Kept-refl s)

  begin_tail-Tailed :
      (tail : Tail) (cs : List Change) (s : Source) → Tailed s (begin_tail o tail cs s)
  unfolding begin_change fail_tail
  begin_tail-Tailed resolved (c ∷ cs) s = tail_taken-Tailed (begin_change o c s) cs s
  begin_tail-Tailed rejected (c ∷ cs) s = fail_tail-Tailed s s cs (Kept-refl s)
  begin_tail-Tailed _ _ s = Kept-Tailed s s s.tail s.queue (Kept-refl s)

  pub resume_tail-Tailed :
      (tail : Tail) (event : Event) (s : Source) → Tailed s (resume_tail o tail event s)
  unfolding resume_tail
  resume_tail-Tailed (working w) event s =
      after_tail-Tailed (work_step o event w s) s (work_step-Works o event w s).0
  resume_tail-Tailed tail_marking marked s = Kept-Tailed s s rejected s.queue (Kept-refl s)
  resume_tail-Tailed resolved tail_begins s = begin_tail-Tailed resolved s.queue s
  resume_tail-Tailed rejected tail_begins s = begin_tail-Tailed rejected s.queue s
  resume_tail-Tailed _ _ s = Kept-Tailed s s s.tail s.queue (Kept-refl s)
