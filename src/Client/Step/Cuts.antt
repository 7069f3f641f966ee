-- ===== src/Client/Step/Cuts.antt =====
-- src/session-index-client.mjs: it does not matter how the daemon's bytes are cut into chunks.
use qq_index.Prelude.{
  ℕ, ◌≡◌, refl, ap, ◌∙◌, true, none, List, [], ◌∷◌, flatten, map, arith, Bool-cases, inl, inr,
  Option-cases, Outcome, err,
}
use qq_index.Client.Values.{Value}
use qq_index.Client.Errors.{violation, ClientError}
use qq_index.Client.State.{Setting, Client, is_some}
use qq_index.Client.State
use qq_index.Client.Handle.{terminate, settle, answer, handle_frame, read_frame}
use qq_index.Client.Step.{Event, data_arrived, act, owner, step, run}
use qq_index.Client.Step.Invariant.{
  Meaning-cases, handle_frame-idle, handle_frame-answered, handle_frame-thrown,
}
use qq_index.Client.Step.Quiet.{has_ended, act-Quiet}
use qq_index.Client.Step.Promises.{fresh}
use qq_index.Client.Frames.{Stream, on_data, has_newline}
use qq_index.Client.Frames.Bytes.{is_over, feed_all}
use qq_index.Client.Frames.Cuts.{forget}
use qq_index.Client.Frames.Chunks.{Sound, receive, receive-feed, on_data-Sound}

terminate_stops : (s : Client) → is_some (terminate violation s).terminal_error ≡ true
unfolding terminate settle answer
terminate_stops s = ground arith

terminate_closed : (e : ClientError) (s : Client) → (terminate e s).closed ≡ s.closed
unfolding terminate settle answer
terminate_closed e s = ground arith

settle_closed :
    (n : ℕ) (s : Client) (o : Outcome ClientError Value) → (settle n o s).closed ≡ s.closed
unfolding settle answer
settle_closed n s o = ground arith

module _ (c : Setting) where
  frame_closed : (frame : List ℕ) (s : Client) → (handle_frame c frame s).closed ≡ s.closed
  frame_closed frame s = elim (Option-cases s.pending) [
    | inl e ↦ ap (λ t. t.closed) (handle_frame-idle c frame s e) ∙ terminate_closed violation s
    | inr (p, e) ↦ elim (Meaning-cases (read_frame c frame p)) [
      | inl (outcome, m) ↦
          ap (λ t. t.closed) (handle_frame-answered c frame p outcome s e m)
          ∙ settle_closed p.call (record s { pending = none }) outcome
      | inr (x, m) ↦
          ap (λ t. t.closed) (handle_frame-thrown c frame p x s e m)
          ∙ (terminate_closed x (settle p.call (err x) s) ∙ settle_closed p.call s (err x))
    ]
  ]

  owner_stops : (s : Client) → (owner c).is_stopped ((owner c).refuse s) ≡ true
  unfolding owner
  owner_stops s = terminate_stops s

  owner_keeps :
      (f : List ℕ) (s : Client)
      → (owner c).is_closed ((owner c).deliver f s) ≡ (owner c).is_closed s
  unfolding owner
  owner_keeps f s = frame_closed f s

  -- Nothing that the client does leaves the start of a frame it would not accept.
  act-Sound :
      (event : Event) (t : Stream Client)
      → Sound (owner c) t
      → Sound (owner c) (record t { owner = act c event t.owner })
  unfolding Sound is_over owner has_ended
  act-Sound event t (inl over) = inl (act-Quiet c t.owner.written event t.owner (over, refl)).0
  act-Sound event t (inr (live, start)) = elim (Bool-cases (has_ended (act c event t.owner))) [
    | inl e ↦ inl e
    | inr e ↦ inr (e, start)
  ]

  step-Sound :
      (event : Event) (t : Stream Client) → Sound (owner c) t → Sound (owner c) (step c event t)
  unfolding step
  step-Sound (data_arrived chunk) t h = on_data-Sound (owner c) owner_stops owner_keeps chunk t h
  step-Sound event t h = act-Sound event t h

  run-Sound :
      (events : List Event) (t : Stream Client)
      → Sound (owner c) t
      → Sound (owner c) (run c events t)
  unfolding run
  run-Sound [] t h = h
  run-Sound (event ∷ events) t h = run-Sound events (step c event t) (step-Sound event t h)

  run-receive :
      (chunks : List (List ℕ)) (t : Stream Client)
      → run c (map data_arrived chunks) t ≡ receive (owner c) chunks t
  unfolding run receive step
  run-receive [] t = refl
  run-receive (chunk ∷ chunks) t = run-receive chunks (on_data (owner c) chunk t)

  fresh-Sound : Sound (owner c) fresh
  unfolding Sound is_over owner State.init has_newline
  fresh-Sound = inr (refl, (refl, omega arith))

  -- After any events, chunks do what all their bytes do one by one, but for bytes that nothing will read.
  pub received_bytes :
      (events : List Event) (chunks : List (List ℕ))
      → forget (owner c) (run c (map data_arrived chunks) (run c events fresh))
        ≡ forget (owner c) (feed_all (owner c) (flatten chunks) (run c events fresh))
  received_bytes events chunks =
      let t = run c events fresh in
      ap (forget (owner c)) (run-receive chunks t)
      ∙ receive-feed (owner c) owner_stops owner_keeps chunks t (run-Sound events fresh fresh-Sound)
