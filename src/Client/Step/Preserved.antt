-- ===== src/Client/Step/Preserved.antt =====
-- src/session-index-client.mjs: calls and their turns keep the invariant of the client.
use qq_index.Prelude.{
  ℕ, ◌+◌, ◌≡◌, ◌⊎◌, refl, sym, ap, subst, ◌∙◌, true, false, not, ◌&&◌, none, some, List, [], ◌∷◌,
  ◌++◌, ltb, ◌==◌, ok, arith, Bool-cases, Option-cases, inl, inr, Outcome-cases,
}
use qq_index.Client.Errors.{ClientError}
use qq_index.Client.Values.{Value}
use qq_index.Client.Checks.{Check}
use qq_index.Client.State.{Setting, Client, Call, Running, make_boundary}
use qq_index.Client.Handle.{answer, enqueue, take_turn, start}
use qq_index.Client.Step.{called, is_open, reject_waiting, fail_queued, abort_waiting, act}
use qq_index.Client.Step.Invariant.{
  is_linked, unit, open_count, settled_count, total, Linked, Keeps, Keeps-refl, total-start,
}

-- Each call that was made is settled, or waits to be, exactly once.
abbrev pub Inv : Client → Type 0
Inv s = Linked s × ((n : ℕ) → total n s ≡ unit (ltb n s.calls))

pub Keeps-Inv : (s t : Client) → Inv s → Keeps s t → Inv t
Keeps-Inv s t (linked, counted) (h, (e, f)) =
    (h, (λ n. e n ∙ (counted n ∙ ap (λ k. unit (ltb n k)) (sym f))))

open_count-append :
    (n : ℕ) (xs : List Call) (call : Call)
    → open_count n (xs ++ (call ∷ []))
      ≡ open_count n xs + unit (call.number == n && not call.rejected)
unfolding open_count
open_count-append n [] call = omega arith
open_count-append n (x ∷ xs) call = omega (arith, open_count-append n xs call)

open_count-reject :
    (n m : ℕ) (xs : List Call)
    → is_open m xs ≡ true
    → open_count n xs ≡ open_count n (reject_waiting m xs) + unit (m == n)
unfolding open_count is_open reject_waiting unit
open_count-reject n m [] h = absurd (ground (arith, h))
open_count-reject n m (x ∷ xs) h = ground (arith, open_count-reject n m xs)

pub open_count-abort :
    (n m : ℕ) (xs : List Call) → open_count n (abort_waiting m xs) ≡ open_count n xs
unfolding open_count abort_waiting
open_count-abort n m [] = refl
open_count-abort n m (x ∷ xs) = ground (arith, open_count-abort n m xs)

pub List-cases : (xs : List Call) → (xs ≡ []) ⊎ ((x : Call) × ((ys : List Call) × (xs ≡ x ∷ ys)))
List-cases [] = inl refl
List-cases (x ∷ xs) = inr (x, (xs, refl))

pub fail_queued-Keeps :
    (n : ℕ) (e : ClientError) (s : Client) → Linked s → Keeps s (fail_queued n e s)
unfolding fail_queued answer total settled_count
fail_queued-Keeps n e s h = elim (Bool-cases (is_open n s.waiting)) [
  | inl f ↦ rw (f, fail_queued) (h, (λ k. omega (arith, open_count-reject k n s.waiting f), refl))
  | inr f ↦ rw (f, fail_queued) (h, (λ k. refl, refl))
]

-- A call that is made waits behind the others.
abbrev pub with_call :
    Setting → (operation : Value) → (validator : Value → Check) → (deadline : ℕ) → Client → Client
with_call c operation validator deadline s = record s {
  calls = s.calls + 1;
  waiting =
      s.waiting
      ++ (record {
        number = s.calls;
        operation = operation;
        validator = validator;
        deadline = deadline;
        aborted = false;
        rejected = false;
      }
          ∷ []);
}

pub enqueue_lem :
    (c : Setting) (operation : Value) (validator : Value → Check) (options : Value) (now : ℕ)
    (s t : Client)
    → enqueue c operation validator options now s ≡ ok t
    → (deadline : ℕ) × (make_boundary c c.default_timeout now options ≡ ok deadline)
      × (t ≡ with_call c operation validator deadline s)
unfolding enqueue
enqueue_lem c operation validator options now s t e =
    elim (Outcome-cases (make_boundary c c.default_timeout now options)) [
      | inl (d, f) ↦ (d, f, ground (arith, e, f))
      | inr (x, f) ↦ absurd (ground (arith, e, f))
    ]

pub with_call-Inv :
    (c : Setting) (operation : Value) (validator : Value → Check) (deadline : ℕ) (s : Client)
    → Inv s
    → Inv (with_call c operation validator deadline s)
unfolding total unit
with_call-Inv c operation validator deadline s (h, f) = (
  h,
  (λ n.
      let counted = f n in
      let appended = open_count-append n s.waiting (record {
        number = s.calls;
        operation = operation;
        validator = validator;
        deadline = deadline;
        aborted = false;
        rejected = false;
      }) in
      ground (arith, counted, appended)),
)

pub called-Inv :
    (c : Setting) (operation : Value) (validator : Value → Check) (options : Value) (now : ℕ)
    (s : Client)
    → Inv s
    → Inv (act c (called operation validator options now) s)
unfolding act
called-Inv c operation validator options now s h =
    elim (Outcome-cases (enqueue c operation validator options now s)) [
      | inl (t, e) ↦
          let (d, f, same) = enqueue_lem c operation validator options now s t e in
          rw (e, act) (subst Inv (sym same) (with_call-Inv c operation validator d s h))
      | inr (x, e) ↦ rw (e, act) h
    ]

pub take_turn-idle :
    (c : Setting) (now : ℕ) (call : Call) (calls : List Call) (s : Client)
    → s.running ≡ none
    → s.waiting ≡ call ∷ calls
    → take_turn c now s ≡ start c now call (record s { waiting = calls })
unfolding take_turn
take_turn-idle c now call calls s e f = ground (arith, e, f)

pub take_turn-busy :
    (c : Setting) (now : ℕ) (r : Running) (s : Client) → s.running ≡ some r → take_turn c now s ≡ s
unfolding take_turn
take_turn-busy c now r s e = ground (arith, e)

pub take_turn-empty :
    (c : Setting) (now : ℕ) (s : Client) → s.running ≡ none → s.waiting ≡ [] → take_turn c now s ≡ s
unfolding take_turn
take_turn-empty c now s e f = ground (arith, e, f)

pub take_turn-Keeps : (c : Setting) (now : ℕ) (s : Client) → Linked s → Keeps s (take_turn c now s)
unfolding take_turn total open_count is_linked
take_turn-Keeps c now s h = elim (Option-cases s.running) [
  | inr (r, e) ↦ subst (Keeps s) (sym (take_turn-busy c now r s e)) (Keeps-refl s h)
  | inl e ↦ elim (List-cases s.waiting) [
    | inl f ↦ subst (Keeps s) (sym (take_turn-empty c now s e f)) (Keeps-refl s h)
    | inr (call, (calls, f)) ↦
        let (k, (counted, same)) = total-start c now call (record s { waiting = calls }) e h in
        subst (Keeps s) (sym (take_turn-idle c now call calls s e f))
          (k, (λ n. let started = counted n in ground (arith, f, started), same))
  ]
]
