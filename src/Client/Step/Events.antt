-- ===== src/Client/Step/Events.antt =====
-- src/session-index-client.mjs: the events of the socket and of the boundaries keep the invariant.
use Prim.Native.String.{String}
use qq_index.Prelude.{
  ℕ, ◌≡◌, refl, sym, subst, Bool, true, false, none, some, [], ◌==◌, if◌then◌else◌, ok, err, arith,
  Bool-cases, Option-cases, inl, inr, Outcome-cases,
}
use qq_index.Client.Errors.{
  ClientError, socket_failure, socket_closed, passing_failure, deadline_error, abort_error,
}
use qq_index.Client.Values.{Value, has_text}
use qq_index.Client.Checks.{exact_object, Check}
use qq_index.Client.State.{Setting, Client, Running, Reason, caller_reason, deadline_reason}
use qq_index.Client.Handle.{reach_boundary, close}
use qq_index.Client.Step.{
  Event, called, turn_came, data_arrived, write_failed, socket_failed, socket_ended, socket_gone,
  deadline_passed, signal_aborted, grace_passed, close_called, close_resumed, fail_queued,
  abort_waiting, act, remove_text, at_boundary, closing_as, written_request,
}
use qq_index.Client.Step.Invariant.{
  total, Linked, Keeps, terminate-Keeps, Keeps-refl, Keeps-trans, reach_boundary-Keeps,
  end_grace-Keeps, close-Keeps, resume_close-Keeps,
}
use qq_index.Client.Step.Preserved.{fail_queued-Keeps, take_turn-Keeps, open_count-abort}

module _ (f : Running → Client → Client) (n : ℕ) where
  at_boundary-idle : (s : Client) → s.running ≡ none → at_boundary f n s ≡ s
  at_boundary-idle s e = ground (arith, e)

  at_boundary-own :
      (r : Running) (s : Client)
      → s.running ≡ some r
      → (r.call == n) ≡ true
      → at_boundary f n s ≡ f r s
  at_boundary-own r s e g = ground (arith, e, g)

  at_boundary-other :
      (r : Running) (s : Client)
      → s.running ≡ some r
      → (r.call == n) ≡ false
      → at_boundary f n s ≡ s
  at_boundary-other r s e g = ground (arith, e, g)

pub either {ℓ} :
    {A : Type 0} (P : A → Type ℓ) (b : Bool) {x y : A} → P x → P y → P (if b then x else y)
either P true h k = h
either P false h k = k

pub at_boundary_keeps :
    (P : Client → Type 0) (f : Running → Client → Client) (n : ℕ) (s : Client)
    → ((r : Running) → P (f r s))
    → P s
    → P (at_boundary f n s)
at_boundary_keeps P f n s own other = elim (Option-cases s.running) [
  | inl e ↦ subst P (sym (at_boundary-idle f n s e)) other
  | inr (r, e) ↦ elim (Bool-cases (r.call == n)) [
    | inl g ↦ subst P (sym (at_boundary-own f n r s e g)) (own r)
    | inr g ↦ subst P (sym (at_boundary-other f n r s e g)) other
  ]
]

module _ (c : Setting) where
  pub closing_as_ok :
      (m : Check) (u : Unit {0}) (s : Client) → m ≡ ok u → closing_as c m s ≡ close c s
  closing_as_ok m u s e = rw e

  pub closing_as_err : (m : Check) (x : ClientError) (s : Client) → m ≡ err x → closing_as c m s ≡ s
  closing_as_err m x s e = rw e

at_boundary-Keeps :
    (c : Setting) (reason : Reason) (e : ClientError) (n : ℕ) (s : Client)
    → Linked s
    → Keeps s (at_boundary (reach_boundary c reason e) n s)
at_boundary-Keeps c reason e n s h = elim (Option-cases s.running) [
  | inl f ↦
      subst (Keeps s) (sym (at_boundary-idle (reach_boundary c reason e) n s f)) (Keeps-refl s h)
  | inr (r, f) ↦ elim (Bool-cases (r.call == n)) [
    | inl g ↦
        subst (Keeps s) (sym (at_boundary-own (reach_boundary c reason e) n r s f g))
          (reach_boundary-Keeps c reason e r s h f)
    | inr g ↦
        subst (Keeps s) (sym (at_boundary-other (reach_boundary c reason e) n r s f g))
          (Keeps-refl s h)
  ]
]

-- A boundary that is reached: the call is rejected if it waits, and cancelled if it runs.
bounded-Keeps :
    (c : Setting) (reason : Reason) (e : ClientError) (n : ℕ) (s : Client)
    → Linked s
    → Keeps s (at_boundary (reach_boundary c reason e) n (fail_queued n e s))
bounded-Keeps c reason e n s h =
    let queued = fail_queued-Keeps n e s h in
    Keeps-trans s (fail_queued n e s)
      (at_boundary (reach_boundary c reason e) n (fail_queued n e s)) queued
      (at_boundary-Keeps c reason e n (fail_queued n e s) queued.0)

abort-Keeps :
    (n : ℕ) (s : Client) → Linked s → Keeps s (record s { waiting = abort_waiting n s.waiting })
unfolding total
abort-Keeps n s h = (h, (λ k. omega (arith, open_count-abort k n s.waiting), refl))

-- An event other than data and a new call.
unfoldable pub is_quiet : Event → Bool
is_quiet (called operation validator options now) = false
is_quiet event = true

close_called-Keeps :
    (c : Setting) (options : Value) (s : Client)
    → Linked s
    → Keeps s (act c (close_called options) s)
unfolding act
close_called-Keeps c options s h = elim (Outcome-cases (exact_object options [] [])) [
  | inl (u, e) ↦
      subst (Keeps s) (sym (closing_as_ok c (exact_object options [] []) u s e)) (close-Keeps c s h)
  | inr (x, e) ↦
      subst (Keeps s) (sym (closing_as_err c (exact_object options [] []) x s e)) (Keeps-refl s h)
]

close_resumed-Keeps :
    (c : Setting) (request : String) (s : Client)
    → Linked s
    → Keeps s (act c (close_resumed request) s)
unfolding act total
close_resumed-Keeps c request s h =
    either (Keeps s) (has_text request s.closing)
      (resume_close-Keeps c request (record s { closing = remove_text request s.closing }) h)
      (Keeps-refl s h)

pub act-Keeps :
    (c : Setting) (event : Event) (s : Client)
    → is_quiet event ≡ true
    → Linked s
    → Keeps s (act c event s)
unfolding act is_quiet
act-Keeps c (called operation validator options now) s q h = absurd (ground (arith, q))
act-Keeps c (turn_came now) s q h = take_turn-Keeps c now s h
act-Keeps c (data_arrived chunk) s q h = Keeps-refl s h
act-Keeps c (write_failed request) s q h =
    either (Keeps s) (written_request request s.pending) (terminate-Keeps socket_failure s h)
      (Keeps-refl s h)
act-Keeps c socket_failed s q h = terminate-Keeps socket_failure s h
act-Keeps c socket_ended s q h = terminate-Keeps (passing_failure socket_closed) s h
act-Keeps c socket_gone s q h =
    either (Keeps s) s.closed (Keeps-refl s h) (terminate-Keeps (passing_failure socket_closed) s h)
act-Keeps c (deadline_passed n) s q h = bounded-Keeps c deadline_reason deadline_error n s h
act-Keeps c (signal_aborted n) s q h =
    let t : Client = record s { waiting = abort_waiting n s.waiting } in
    Keeps-trans s t (act c (signal_aborted n) s) (abort-Keeps n s h)
      (bounded-Keeps c caller_reason abort_error n t h)
act-Keeps c grace_passed s q h = end_grace-Keeps c s h
act-Keeps c (close_called options) s q h = close_called-Keeps c options s h
act-Keeps c (close_resumed request) s q h = close_resumed-Keeps c request s h
