-- ===== src/Client/Step/Promises.antt =====
-- src/session-index-client.mjs: what the client promises its callers, whatever happens and in any order.
use qq_index.Prelude.{ℕ, refl, List, [], ◌∷◌, arith}
use qq_index.Client.Errors.{violation}
use qq_index.Client.State.{Setting, Client, Call, Pending, Running, is_some}
use qq_index.Client.State
use qq_index.Client.Handle.{terminate, handle_frame}
use qq_index.Client.Step.{Event, called, data_arrived, act, owner, step, run}
use qq_index.Client.Step.Invariant.{
  is_linked, unit, open_count, running_count, settled_count, total, terminate-Keeps,
  handle_frame-Keeps,
}
use qq_index.Client.Step.Preserved.{Inv, Keeps-Inv, called-Inv}
use qq_index.Client.Step.Events.{is_quiet, act-Keeps}
use qq_index.Client.Frames.{Stream, on_data}
use qq_index.Client.Frames.Owners.{on_data_keeps}

-- A client with no bytes waiting.
abbrev pub fresh : Stream Client
fresh = record { buffer = []; owner = State.init }

module _ (c : Setting) where
  on_data-Inv :
      (chunk : List ℕ) (t : Stream Client) → Inv t.owner → Inv (on_data (owner c) chunk t).owner
  unfolding owner
  on_data-Inv chunk t h =
      on_data_keeps (owner c) {P = Inv}
        (λ frame s v. Keeps-Inv s (handle_frame c frame s) v (handle_frame-Keeps c frame s v.0))
        (λ s v. Keeps-Inv s (terminate violation s) v (terminate-Keeps violation s v.0)) chunk t h

  act-Inv : (event : Event) (s : Client) → Inv s → Inv (act c event s)
  unfolding is_quiet
  act-Inv (called operation validator options now) s h =
      called-Inv c operation validator options now s h
  act-Inv event s h = Keeps-Inv s (act c event s) h (act-Keeps c event s refl h.0)

  pub step-Inv : (event : Event) (t : Stream Client) → Inv t.owner → Inv (step c event t).owner
  unfolding step
  step-Inv (data_arrived chunk) t h = on_data-Inv chunk t h
  step-Inv event t h = act-Inv event t.owner h

  pub run-Inv : (events : List Event) (t : Stream Client) → Inv t.owner → Inv (run c events t).owner
  unfolding run
  run-Inv [] t h = h
  run-Inv (event ∷ events) t h = run-Inv events (step c event t) (step-Inv event t h)

  pub init-Inv : Inv State.init
  unfolding State.init total is_linked settled_count running_count open_count unit
  init-Inv = (refl, (λ n. ground arith))

  -- After any events, each call that was made has settled once, or waits to; a request is pending exactly while
  -- a call runs, it is that call's, and then the client has not failed: `terminal_error` is none.
  pub calls_settle_once : (events : List Event) → Inv (run c events fresh).owner
  calls_settle_once events = run-Inv events fresh init-Inv
