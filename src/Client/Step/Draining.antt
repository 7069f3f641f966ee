-- ===== src/Client/Step/Draining.antt =====
-- src/session-index-client.mjs: once the client has failed, the calls that wait settle as their turns come.
use qq_index.Prelude.{
  ℕ, suc, ◌≤◌, ◌<◌, ◌≡◌, refl, sym, subst, ◌∙◌, Bool, true, false, none, List, [], ◌∷◌, map, length,
  Outcome, err, arith, inl, inr,
}
use qq_index.Client.Errors.{ClientError}
use qq_index.Client.Values.{Value}
use qq_index.Client.State.{Setting, Client, is_some}
use qq_index.Client.Handle.{answer, take_turn}
use qq_index.Client.Step.{Event, turn_came, act, step, run}
use qq_index.Client.Step.Invariant.{
  is_linked, unit, open_count, running_count, settled_count, total, Linked, Keeps, Keeps-refl,
  Keeps-trans,
}
use qq_index.Client.Step.Preserved.{
  Inv, take_turn-Keeps, take_turn-empty, take_turn-idle, List-cases,
}
use qq_index.Client.Step.Quiet.{has_ended, start-ended}
use qq_index.Client.Step.Promises.{fresh, run-Inv, init-Inv}
use qq_index.Client.Frames.{Stream}

failed_idle : (s : Client) → Linked s → is_some s.terminal_error ≡ true → s.running ≡ none
unfolding is_linked
failed_idle s h e = ground arith

failed_ended : (s : Client) → is_some s.terminal_error ≡ true → has_ended s ≡ true
unfolding has_ended
failed_ended s e = rw e

answer_fields :
    (b : Bool) (n : ℕ) (o : Outcome ClientError Value) (s : Client)
    → ((answer b n o s).waiting ≡ s.waiting) × ((answer b n o s).terminal_error ≡ s.terminal_error)
unfolding answer
answer_fields true n o s = (refl, refl)
answer_fields false n o s = (refl, refl)

module _ (c : Setting) where
  -- A turn takes one call off the queue, and the client has still failed.
  turn_failed :
      (now : ℕ) (m : ℕ) (s : Client)
      → Linked s
      → is_some s.terminal_error ≡ true
      → length s.waiting ≤ suc m
      → (length (take_turn c now s).waiting ≤ m)
        × (is_some (take_turn c now s).terminal_error ≡ true)
  turn_failed now m s h e fits =
      let idle = failed_idle s h e in
      elim (List-cases s.waiting) [
        | inl f ↦
            subst (λ t. (length t.waiting ≤ m) × (is_some t.terminal_error ≡ true))
              (sym (take_turn-empty c now s idle f)) (ground (arith, f), e)
        | inr (call, (calls, f)) ↦
            let t : Client = record s { waiting = calls } in
            let (x, g) = start-ended c now call t (failed_ended t e) in
            let (w, k) = answer_fields call.rejected call.number (err x) t in
            subst (λ u. (length u.waiting ≤ m) × (is_some u.terminal_error ≡ true))
              (sym (take_turn-idle c now call calls s idle f ∙ g))
              (ground (arith, w, f, fits), ground (arith, k, e))
      ]

  turns_drain :
      (nows : List ℕ) (t : Stream Client)
      → Linked t.owner
      → is_some t.owner.terminal_error ≡ true
      → length t.owner.waiting ≤ length nows
      → ((run c (map turn_came nows) t).owner.waiting ≡ [])
        × (Keeps t.owner (run c (map turn_came nows) t).owner
            × (is_some (run c (map turn_came nows) t).owner.terminal_error ≡ true))
  unfolding run step act
  turns_drain [] t h e fits = (ground (arith, fits), (Keeps-refl t.owner h, e))
  turns_drain (now ∷ nows) t h e fits =
      let s = take_turn c now t.owner in
      let kept = take_turn-Keeps c now t.owner h in
      let (shorter, failed) = turn_failed now (length nows) t.owner h e (omega (arith, fits)) in
      let (done, (rest, still)) = turns_drain nows (record t { owner = s }) kept.0 failed shorter in
      (
        done,
        (
          Keeps-trans t.owner s (run c (map turn_came nows) (record t { owner = s })).owner kept
              rest,
          still,
        ),
      )

  drained_counts :
      (n : ℕ) (s : Client)
      → Inv s
      → s.waiting ≡ []
      → is_some s.terminal_error ≡ true
      → n < s.calls
      → settled_count n s.settled ≡ 1
  unfolding total open_count running_count unit
  drained_counts n s (h, counted) empty e made =
      let all = counted n in let idle = failed_idle s h e in ground (arith, all, empty, idle, made)

  -- Once the client has failed, every call that was made has settled exactly once when as many turns have come as
  -- calls wait.
  pub drained_after_failure :
      (events : List Event) (nows : List ℕ) (n : ℕ)
      → is_some (run c events fresh).owner.terminal_error ≡ true
      → length (run c events fresh).owner.waiting ≤ length nows
      → n < (run c events fresh).owner.calls
      → settled_count n (run c (map turn_came nows) (run c events fresh)).owner.settled ≡ 1
  drained_after_failure events nows n failed fits made =
      let t = run c events fresh in
      let v = run-Inv c events fresh (init-Inv c) in
      let (empty, (kept, still)) = turns_drain nows t v.0 failed fits in
      drained_counts n (run c (map turn_came nows) t).owner (run-Inv c (map turn_came nows) t v)
        empty still (subst (λ k. n < k) (sym kept.1.1) made)
