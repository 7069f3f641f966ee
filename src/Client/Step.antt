-- ===== src/Client/Step.antt =====
-- The client of src/session-index-client.mjs as a whole: its calls, the events of its socket and its timers, in
-- any order. Time is left out: a timer may fire whenever it is armed.
pub mod Invariant
pub mod Preserved
pub mod Events
pub mod Promises
pub mod Quiet
pub mod Draining
pub mod Answers
pub mod Cuts
use Prim.Native.String.{String}
use qq_index.Prelude.{
  ℕ, ◌+◌, Bool, true, false, not, ◌&&◌, ◌||◌, Option, none, some, List, [], ◌∷◌, leb, ◌==◌,
  if◌then◌else◌, Outcome, ok, err, ◌>>=◌, ◌>>◌,
}
use qq_index.Client.Errors.{
  ClientError, Code, socket_closed, invalid, violation, deadline_error, abort_error, socket_failure,
  passing_failure,
}
use qq_index.Client.Values.{Value, has_text, same_text}
use qq_index.Client.Checks.{Check, exact_object}
use qq_index.Client.Frames.{Stream, Owner, on_data}
use qq_index.Client.State.{
  Setting, Client, Call, Pending, Running, Reason, caller_reason, deadline_reason, is_some,
}
use qq_index.Client.Handle.{
  answer, terminate, handle_frame, enqueue, take_turn, reach_boundary, end_grace, close,
  resume_close,
}

-- Calls are named by their numbers, a request by its id.
pub data Event : Type 0 where
  called : (operation : Value) → (validator : Value → Check) → (options : Value) → (now : ℕ) → Event
  turn_came : (now : ℕ) → Event
  data_arrived : List ℕ → Event
  write_failed : String → Event
  socket_failed socket_ended socket_gone : Event
  deadline_passed signal_aborted : (call : ℕ) → Event
  grace_passed : Event
  close_called : (options : Value) → Event
  close_resumed : String → Event

-- The call is rejected while it waits: `failIfQueued`.
unfoldable pub is_open : ℕ → List Call → Bool
is_open n [] = false
is_open n (call ∷ calls) = (call.number == n && not call.rejected) || is_open n calls

unfoldable pub reject_waiting : ℕ → List Call → List Call
reject_waiting n [] = []
reject_waiting n (call ∷ calls) =
    if call.number == n && not call.rejected
    then record call { rejected = true } ∷ calls
    else call ∷ reject_waiting n calls

unfoldable pub fail_queued : ℕ → ClientError → Client → Client
unfolding is_open reject_waiting answer
fail_queued n error s =
    if is_open n s.waiting
    then answer false n (err error) (record s { waiting = reject_waiting n s.waiting })
    else s

-- The signal of a waiting call is aborted, for `ensureBoundary`.
unfoldable pub abort_waiting : ℕ → List Call → List Call
abort_waiting n [] = []
abort_waiting n (call ∷ calls) =
    if call.number == n
    then record call { aborted = true } ∷ abort_waiting n calls
    else call ∷ abort_waiting n calls

unfoldable pub remove_text : String → List String → List String
remove_text t [] = []
remove_text t (u ∷ us) = if same_text u t then us else u ∷ remove_text t us

-- `removeEventListener` and `clearTimeout` take a settled call's boundary away.
abbrev at_boundary : (Running → Client → Client) → ℕ → Client → Client
at_boundary f n s = elim s.running [ none ↦ s | some r ↦ if r.call == n then f r s else s ]

abbrev written_request : String → Option Pending → Bool
written_request request none = false
written_request request (some p) = same_text p.request_id request

module _ (c : Setting) where
  unfoldable pub owner : Owner Client
  unfolding handle_frame terminate
  owner = record {
    deliver = handle_frame c;
    refuse = terminate violation;
    is_stopped = λ s. is_some s.terminal_error;
    is_closed = λ s. s.closed;
  }

  abbrev called_as : Outcome ClientError Client → Client → Client
  called_as (ok t) s = t
  called_as (err e) s = s

  abbrev closing_as : Check → Client → Client
  closing_as (ok u) s = close c s
  closing_as (err e) s = s

  -- An event other than data.
  unfoldable pub act : Event → Client → Client
  unfolding enqueue take_turn terminate fail_queued abort_waiting reach_boundary end_grace close
      resume_close remove_text
  act (called operation validator options now) s =
      called_as (enqueue c operation validator options now s) s
  act (turn_came now) s = take_turn c now s
  act (data_arrived chunk) s = s
  act (write_failed request) s =
      if written_request request s.pending then terminate socket_failure s else s
  act socket_failed s = terminate socket_failure s
  act socket_ended s = terminate (passing_failure socket_closed) s
  act socket_gone s = if s.closed then s else terminate (passing_failure socket_closed) s
  act (deadline_passed n) s =
      at_boundary (reach_boundary c deadline_reason deadline_error) n
        (fail_queued n deadline_error s)
  act (signal_aborted n) s =
      at_boundary (reach_boundary c caller_reason abort_error) n
        (fail_queued n abort_error (record s { waiting = abort_waiting n s.waiting }))
  act grace_passed s = end_grace c s
  act (close_called options) s = closing_as (exact_object options [] []) s
  act (close_resumed request) s =
      if has_text request s.closing
      then resume_close c request (record s { closing = remove_text request s.closing })
      else s

  abbrev chunk_of : Event → Option (List ℕ)
  chunk_of (data_arrived chunk) = some chunk
  chunk_of _ = none

  unfoldable pub step : Event → Stream Client → Stream Client
  unfolding on_data owner act
  step event t = elim (chunk_of event) [
    | some chunk ↦ on_data owner chunk t
    | none ↦ record t { owner = act event t.owner }
  ]

  unfoldable pub run : List Event → Stream Client → Stream Client
  unfolding step
  run [] t = t
  run (event ∷ events) t = run events (step event t)
