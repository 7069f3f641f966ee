-- ===== src/Client/Step/Quiet.antt =====
-- src/session-index-client.mjs: nothing is written once the client has ended.
use Prim.Native.String.{String}
use qq_index.Client.Values.{Value, has_text}
use qq_index.Prelude.{
  ℕ, ◌≡◌, refl, sym, subst, ◌∙◌, Bool, true, ◌||◌, none, List, [], ◌∷◌, Outcome, err, arith,
  Option-cases, inl, inr, Outcome-cases,
}
use qq_index.Client.Errors.{
  ClientError, violation, socket_failure, passing_failure, socket_closed, deadline_error,
  abort_error,
}
use qq_index.Client.Checks.{exact_object, Check}
use qq_index.Client.State.{
  Setting, Client, Call, Running, Reason, Envelope, is_some, ensure_boundary, deadline_reason,
  caller_reason,
}
use qq_index.Client.Handle.{
  answer, settle, terminate, handle_frame, enqueue, admit, start, take_turn, reach_boundary,
  end_grace, finish_close, close, resume_close, read_frame,
}
use qq_index.Client.Step.{
  Event, called, turn_came, data_arrived, write_failed, socket_failed, socket_ended, socket_gone,
  deadline_passed, signal_aborted, grace_passed, close_called, close_resumed, fail_queued, act,
  owner, step, run, at_boundary, written_request, abort_waiting, remove_text,
}
use qq_index.Client.Step.Preserved.{
  enqueue_lem, take_turn-busy, take_turn-empty, take_turn-idle, List-cases,
}
use qq_index.Client.Step.Invariant.{
  Meaning-cases, handle_frame-idle, handle_frame-answered, handle_frame-thrown,
}
use qq_index.Client.Step.Events.{at_boundary_keeps, either, closing_as_ok, closing_as_err}
use qq_index.Client.Frames.{Stream}
use qq_index.Client.Frames.Owners.{on_data_keeps}

-- The client has failed or is closed.
unfoldable pub has_ended : Client → Bool
has_ended s = is_some s.terminal_error || s.closed

-- It has ended, and these requests were written.
abbrev pub Quiet : List Envelope → Client → Type 0
Quiet requests s = (has_ended s ≡ true) × (s.written ≡ requests)

answer-Quiet :
    (w : List Envelope) (b : Bool) (n : ℕ) (o : Outcome ClientError Value) (s : Client)
    → Quiet w s
    → Quiet w (answer b n o s)
unfolding has_ended answer
answer-Quiet w b n o s h = ground arith

settle-Quiet :
    (w : List Envelope) (n : ℕ) (o : Outcome ClientError Value) (s : Client)
    → Quiet w s
    → Quiet w (settle n o s)
unfolding has_ended settle answer
settle-Quiet w n o s h = ground arith

terminate-Quiet :
    (w : List Envelope) (e : ClientError) (s : Client) → Quiet w s → Quiet w (terminate e s)
unfolding has_ended terminate settle answer
terminate-Quiet w e s h = ground arith

module _ (c : Setting) where
  handle_frame-Quiet :
      (w : List Envelope) (frame : List ℕ) (s : Client)
      → Quiet w s
      → Quiet w (handle_frame c frame s)
  unfolding has_ended handle_frame
  handle_frame-Quiet w frame s h = elim (Option-cases s.pending) [
    | inl e ↦
        subst (Quiet w) (sym (handle_frame-idle c frame s e)) (terminate-Quiet w violation s h)
    | inr (p, e) ↦ elim (Meaning-cases (read_frame c frame p)) [
      | inl (outcome, m) ↦
          subst (Quiet w) (sym (handle_frame-answered c frame p outcome s e m))
            (settle-Quiet w p.call outcome (record s { pending = none }) h)
      | inr (x, m) ↦
          subst (Quiet w) (sym (handle_frame-thrown c frame p x s e m))
            (terminate-Quiet w x (settle p.call (err x) s) (settle-Quiet w p.call (err x) s h))
    ]
  ]

  admit-ended :
      (now : ℕ) (call : Call) (s : Client)
      → has_ended s ≡ true
      → (e : ClientError) × (admit c now call s ≡ err e)
  unfolding has_ended admit ensure_boundary
  admit-ended now call s h = elim (Outcome-cases (admit c now call s)) [
    | inl (u, e) ↦ absurd (ground (arith, e, h))
    | inr (x, e) ↦ (x, e)
  ]

  pub start-ended :
      (now : ℕ) (call : Call) (s : Client)
      → has_ended s ≡ true
      → (e : ClientError) × (start c now call s ≡ answer call.rejected call.number (err e) s)
  unfolding start
  start-ended now call s h = let (e, f) = admit-ended now call s h in (e, rw (f, start))

  take_turn-Quiet :
      (w : List Envelope) (now : ℕ) (s : Client) → Quiet w s → Quiet w (take_turn c now s)
  unfolding take_turn has_ended
  take_turn-Quiet w now s h = elim (Option-cases s.running) [
    | inr (r, e) ↦ subst (Quiet w) (sym (take_turn-busy c now r s e)) h
    | inl e ↦ elim (List-cases s.waiting) [
      | inl f ↦ subst (Quiet w) (sym (take_turn-empty c now s e f)) h
      | inr (call, (calls, f)) ↦
          let t : Client = record s { waiting = calls } in
          let (x, g) = start-ended now call t h.0 in
          subst (Quiet w) (sym (take_turn-idle c now call calls s e f ∙ g))
            (answer-Quiet w call.rejected call.number (err x) t h)
    ]
  ]

  close-Quiet : (w : List Envelope) (s : Client) → Quiet w s → Quiet w (close c s)
  unfolding has_ended close finish_close settle answer
  close-Quiet w s h = ground arith

  resume_close-Quiet :
      (w : List Envelope) (request : String) (s : Client)
      → Quiet w s
      → Quiet w (resume_close c request s)
  unfolding has_ended resume_close finish_close terminate settle answer
  resume_close-Quiet w request s h = ground arith

  reach_boundary-Quiet :
      (w : List Envelope) (reason : Reason) (e : ClientError) (r : Running) (s : Client)
      → Quiet w s
      → Quiet w (reach_boundary c reason e r s)
  unfolding has_ended reach_boundary terminate settle answer
  reach_boundary-Quiet w reason e r s h = ground arith

  end_grace-Quiet : (w : List Envelope) (s : Client) → Quiet w s → Quiet w (end_grace c s)
  unfolding has_ended end_grace terminate settle answer
  end_grace-Quiet w s h = ground arith

  fail_queued-Quiet :
      (w : List Envelope) (n : ℕ) (e : ClientError) (s : Client)
      → Quiet w s
      → Quiet w (fail_queued n e s)
  unfolding has_ended fail_queued answer
  fail_queued-Quiet w n e s h = ground arith

  bounded-Quiet :
      (w : List Envelope) (reason : Reason) (e : ClientError) (n : ℕ) (s : Client)
      → Quiet w s
      → Quiet w (at_boundary (reach_boundary c reason e) n (fail_queued n e s))
  bounded-Quiet w reason e n s h =
      at_boundary_keeps (Quiet w) (reach_boundary c reason e) n (fail_queued n e s)
        (λ r. reach_boundary-Quiet w reason e r (fail_queued n e s) (fail_queued-Quiet w n e s h))
        (fail_queued-Quiet w n e s h)

  called-Quiet :
      (w : List Envelope) (operation : Value) (validator : Value → Check) (options : Value)
      (now : ℕ) (s : Client)
      → Quiet w s
      → Quiet w (act c (called operation validator options now) s)
  unfolding act has_ended
  called-Quiet w operation validator options now s h =
      elim (Outcome-cases (enqueue c operation validator options now s)) [
        | inl (t, e) ↦
            let (d, f, same) = enqueue_lem c operation validator options now s t e in
            rw (e, act) (subst (Quiet w) (sym same) h)
        | inr (x, e) ↦ rw (e, act) h
      ]

  pub act-Quiet :
      (w : List Envelope) (event : Event) (s : Client) → Quiet w s → Quiet w (act c event s)
  unfolding act has_ended
  act-Quiet w (called operation validator options now) s h =
      called-Quiet w operation validator options now s h
  act-Quiet w (turn_came now) s h = take_turn-Quiet w now s h
  act-Quiet w (data_arrived chunk) s h = h
  act-Quiet w (write_failed request) s h =
      either (Quiet w) (written_request request s.pending) (terminate-Quiet w socket_failure s h) h
  act-Quiet w socket_failed s h = terminate-Quiet w socket_failure s h
  act-Quiet w socket_ended s h = terminate-Quiet w (passing_failure socket_closed) s h
  act-Quiet w socket_gone s h =
      either (Quiet w) s.closed h (terminate-Quiet w (passing_failure socket_closed) s h)
  act-Quiet w (deadline_passed n) s h = bounded-Quiet w deadline_reason deadline_error n s h
  act-Quiet w (signal_aborted n) s h =
      bounded-Quiet w caller_reason abort_error n (record s { waiting = abort_waiting n s.waiting })
        h
  act-Quiet w grace_passed s h = end_grace-Quiet w s h
  act-Quiet w (close_called options) s h = elim (Outcome-cases (exact_object options [] [])) [
    | inl (u, e) ↦ rw (closing_as_ok c (exact_object options [] []) u s e) (close-Quiet w s h)
    | inr (x, e) ↦ rw (closing_as_err c (exact_object options [] []) x s e) h
  ]
  act-Quiet w (close_resumed request) s h =
      either (Quiet w) (has_text request s.closing)
        (resume_close-Quiet w request (record s { closing = remove_text request s.closing }) h) h

  step-Quiet :
      (w : List Envelope) (event : Event) (t : Stream Client)
      → Quiet w t.owner
      → Quiet w (step c event t).owner
  unfolding step owner
  step-Quiet w (data_arrived chunk) t h =
      on_data_keeps (owner c) {P = Quiet w} (handle_frame-Quiet w) (terminate-Quiet w violation)
        chunk t h
  step-Quiet w event t h = act-Quiet w event t.owner h

  run-Quiet :
      (w : List Envelope) (events : List Event) (t : Stream Client)
      → Quiet w t.owner
      → Quiet w (run c events t).owner
  unfolding run
  run-Quiet w [] t h = h
  run-Quiet w (event ∷ events) t h = run-Quiet w events (step c event t) (step-Quiet w event t h)

  -- Once the client is closed or has failed, it stays so, and no event makes it write a request.
  pub quiet_after_end :
      (events : List Event) (t : Stream Client)
      → has_ended t.owner ≡ true
      → (has_ended (run c events t).owner ≡ true)
        × ((run c events t).owner.written ≡ t.owner.written)
  quiet_after_end events t h = run-Quiet t.owner.written events t (h, refl)
