-- ===== src/Client/Step/Answers.antt =====
-- src/session-index-client.mjs: what a call is answered with.
use Prim.Native.String.{String}
use qq_index.Prelude.{
  ℕ, ◌≡◌, ◌⊎◌, sym, ap, subst, ◌∙◌, true, false, none, some, List, [], ◌∷◌, Outcome, ok, err, arith,
  Option-cases, Outcome-cases, inl, inr, length,
}
use qq_index.Client.Errors.{ClientError, cancellation_unacknowledged, passing_failure, violation}
use qq_index.Client.Values.{Value, string, get, strict_equal}
use qq_index.Client.Responses.{validate_envelope}
use qq_index.Client.State.{Setting, Client, Pending, Running}
use qq_index.Client.Handle.{
  answer, settle, terminate, handle_frame, read_frame, answered, end_grace,
}
use qq_index.Client.Step.{grace_passed, step, act}
use qq_index.Client.Step.Invariant.{
  Linked, is_linked, Meaning-cases, handle_frame-idle, handle_frame-answered, handle_frame-thrown,
}
use qq_index.Client.Frames.{Stream}

-- An accepted envelope carries the id of the request.
validate_envelope_id :
    (envelope : Value) (request : String)
    → validate_envelope envelope request ≡ ok tt
    → strict_equal (get "requestId" envelope) (string request) ≡ true
unfolding validate_envelope
validate_envelope_id envelope request h = ground (arith, h)

-- The responses among the answers.
unfoldable pub responses : List (ℕ × Outcome ClientError Value) → List (ℕ × Value)
responses [] = []
responses ((n, ok v) ∷ settled) = (n, v) ∷ responses settled
responses ((n, err e) ∷ settled) = responses settled

no_loop : (x : ℕ × Value) (xs : List (ℕ × Value)) → xs ≡ x ∷ xs → ⊥
no_loop x xs h = omega (arith, ap length h)

settle_err :
    (call : ℕ) (x : ClientError) (s : Client)
    → responses (settle call (err x) s).settled ≡ responses s.settled
unfolding settle answer responses
settle_err call x s = ground arith

settle_ok :
    (call : ℕ) (w : Value) (s : Client)
    → (responses (settle call (ok w) s).settled ≡ responses s.settled)
      ⊎ (responses (settle call (ok w) s).settled ≡ (call, w) ∷ responses s.settled)
unfolding settle answer responses
settle_ok call w s = ground arith

cons_parts :
    (m n : ℕ) (a b : Value) (xs : List (ℕ × Value)) → (m, a) ∷ xs ≡ (n, b) ∷ xs → (m ≡ n) × (a ≡ b)
cons_parts m n a b xs h = (cc h, cc h)

terminate_stopped : (x e : ClientError) (s : Client) → s.terminal_error ≡ some e → terminate x s ≡ s
unfolding terminate
terminate_stopped x e s f = ground (arith, f)

terminate_idle :
    (x : ClientError) (s : Client)
    → s.terminal_error ≡ none
    → s.pending ≡ none
    → (terminate x s).settled ≡ s.settled
unfolding terminate
terminate_idle x s f g = ground (arith, f, g)

terminate_busy :
    (x : ClientError) (p : Pending) (s : Client)
    → s.terminal_error ≡ none
    → s.pending ≡ some p
    → terminate x s
      ≡ settle p.call
          (err x)
          (record s { terminal_error = some x; destroyed = true; pending = none })
unfolding terminate
terminate_busy x p s f g = ground (arith, f, g)

terminate_err :
    (x : ClientError) (s : Client) → responses (terminate x s).settled ≡ responses s.settled
terminate_err x s = elim (Option-cases s.terminal_error) [
  | inr (e, f) ↦ ap (λ t. responses t.settled) (terminate_stopped x e s f)
  | inl f ↦ elim (Option-cases s.pending) [
    | inl g ↦ ap responses (terminate_idle x s f g)
    | inr (p, g) ↦
        ap (λ t. responses t.settled) (terminate_busy x p s f g)
        ∙ settle_err p.call x
            (record s { terminal_error = some x; destroyed = true; pending = none })
  ]
]

module _ (c : Setting) where
  -- Where a frame gives a response, it is that of an envelope for this request, and the validator took it.
  read_frame-response :
      (frame : List ℕ) (p : Pending) (v : Value)
      → read_frame c frame p ≡ answered (ok v)
      → (envelope : Value) × (c.parse frame ≡ some envelope)
        × (strict_equal (get "requestId" envelope) (string p.request_id) ≡ true)
        × (v ≡ get "response" envelope)
        × (p.validator v ≡ ok tt)
  unfolding read_frame
  read_frame-response frame p v h = elim (Option-cases (c.parse frame)) [
    | inl e ↦ absurd (ground (arith, e, h))
    | inr (envelope, e) ↦
        let accepted : validate_envelope envelope p.request_id ≡ ok tt = ground (arith, e, h) in
        let same : v ≡ get "response" envelope = ground (arith, e, h) in
        let valid : p.validator (get "response" envelope) ≡ ok tt = ground (arith, e, h) in
        (
          envelope,
          e,
          validate_envelope_id envelope p.request_id accepted,
          same,
          subst (λ w. p.validator w ≡ ok tt) (sym same) valid,
        )
  ]

  settle_response :
      (call : ℕ) (outcome : Outcome ClientError Value) (n : ℕ) (v : Value) (s : Client)
      → responses (settle call outcome s).settled ≡ (n, v) ∷ responses s.settled
      → (outcome ≡ ok v) × (call ≡ n)
  settle_response call outcome n v s h = elim (Outcome-cases outcome) [
    | inl (w, e) ↦
        let opened = ap (λ o. responses (settle call o s).settled) (sym e) ∙ h in
        elim (settle_ok call w s) [
          | inl f ↦ absurd (no_loop (n, v) (responses s.settled) (sym f ∙ opened))
          | inr f ↦
              let parts = cons_parts call n w v (responses s.settled) (sym f ∙ opened) in
              (e ∙ ap ok parts.1, parts.0)
        ]
    | inr (x, e) ↦ absurd (
        no_loop (n, v) (responses s.settled)
          (sym (settle_err call x s) ∙ (ap (λ o. responses (settle call o s).settled) (sym e) ∙ h)))
  ]

  -- A frame answers a call with a response only where the call's request is pending, the frame is an envelope
  -- with that request's id, and the call's validator accepts its response.
  pub response_lem :
      (frame : List ℕ) (n : ℕ) (v : Value) (s : Client)
      → responses (handle_frame c frame s).settled ≡ (n, v) ∷ responses s.settled
      → (p : Pending) × (s.pending ≡ some p)
        × (p.call ≡ n)
        × ((envelope : Value) × (c.parse frame ≡ some envelope)
            × (strict_equal (get "requestId" envelope) (string p.request_id) ≡ true)
            × (v ≡ get "response" envelope)
            × (p.validator v ≡ ok tt))
  response_lem frame n v s h = elim (Option-cases s.pending) [
    | inl e ↦ absurd (
        no_loop (n, v) (responses s.settled)
          (sym (terminate_err violation s)
            ∙ (ap (λ t. responses t.settled) (sym (handle_frame-idle c frame s e)) ∙ h)))
    | inr (p, e) ↦ elim (Meaning-cases (read_frame c frame p)) [
      | inl (outcome, m) ↦
          let (same, own) =
            settle_response p.call outcome n v (record s { pending = none })
              (ap (λ t. responses t.settled) (sym (handle_frame-answered c frame p outcome s e m))
                ∙ h) in
          (p, e, own, read_frame-response frame p v (m ∙ ap answered same))
      | inr (x, m) ↦ absurd (
          no_loop (n, v) (responses s.settled)
            (sym (terminate_err x (settle p.call (err x) s) ∙ settle_err p.call x s)
              ∙ (ap (λ t. responses t.settled) (sym (handle_frame-thrown c frame p x s e m)) ∙ h)))
    ]
  ]

  -- When the grace of a cancellation is over, the call is answered that its cancellation was not acknowledged,
  -- nothing is pending, and the client has failed.
  grace_lem :
      (r : Running) (t : Stream Client)
      → Linked t.owner
      → t.owner.running ≡ some r
      → r.cancelling ≡ true
      → r.answered ≡ false
      → ((step c grace_passed t).owner.settled
          ≡ (r.call, err (passing_failure cancellation_unacknowledged)) ∷ t.owner.settled)
        × (((step c grace_passed t).owner.pending ≡ none)
            × ((step c grace_passed t).owner.terminal_error
                ≡ some (passing_failure cancellation_unacknowledged)))
  unfolding step act end_grace terminate settle answer is_linked
  grace_lem r t h e k a = (ground arith, (ground arith, ground arith))
