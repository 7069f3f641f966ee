-- ===== src/Client/Handle.antt =====
-- The methods of `SessionIndexClient` in src/session-index-client.mjs that settle calls: `#handleFrame`,
-- `#terminate`, the round trip and its boundaries, and `close`.
use Prim.Native.String.{String}
use qq_index.Prelude.{
  ℕ, ◌+◌, Bool, true, false, not, Option, none, some, List, [], ◌∷◌, ◌++◌, leb, ◌==◌, if◌then◌else◌,
  Outcome, ok, err, ◌>>=◌, ◌>>◌,
}
use qq_index.Client.Errors.{
  ClientError, client_closed, cancellation_unacknowledged, violation, failure, passing_failure,
}
use qq_index.Client.Values.{Value, string, get, same_text}
use qq_index.Client.Checks.{Check, expect, exact_object, identifier}
use qq_index.Client.Responses.{max_frame_bytes, validate_envelope, daemon_error, is_true}
use qq_index.Client.State.{
  Setting, Client, Call, Pending, Running, Envelope, Reason, disconnect_reason, ensure_boundary,
  make_boundary,
}

-- The promise that a call has returned settles, unless it was rejected before.
unfoldable pub answer : (rejected : Bool) → (call : ℕ) → Outcome ClientError Value → Client → Client
answer true call outcome s = s
answer false call outcome s = record s { settled = (call, outcome) ∷ s.settled }

-- The job of the running call settles.
unfoldable pub settle : (call : ℕ) → Outcome ClientError Value → Client → Client
unfolding answer
settle call outcome s = elim s.running [
  | none ↦ s
  | some r ↦
      if r.call == call then answer r.answered call outcome (record s { running = none }) else s
]

unfoldable pub terminate : ClientError → Client → Client
unfolding settle
terminate error s = elim s.terminal_error [
  | some e ↦ s
  | none ↦ elim s.pending [
    | none ↦ record s { terminal_error = some error; destroyed = true }
    | some p ↦
        settle p.call (err error)
          (record s { terminal_error = some error; destroyed = true; pending = none })
  ]
]

-- What a frame means for the request that waits: the daemon's error or its response, or what is thrown; with
-- whether it was thrown before `#pending` was reset.
pub data Meaning : Type 0 where
  answered : Outcome ClientError Value → Meaning
  thrown : ClientError → Meaning

abbrev thrown_by : Outcome ClientError Meaning → Meaning
thrown_by (ok m) = m
thrown_by (err e) = thrown e

module _ (c : Setting) where
  -- The `try` of `#handleFrame`.
  unfoldable pub read_frame : List ℕ → Pending → Meaning
  unfolding validate_envelope daemon_error
  read_frame frame p = elim (c.parse frame) [
    | none ↦ thrown violation
    | some envelope ↦ thrown_by (do
      validate_envelope envelope p.request_id
      if is_true (get "ok" envelope)
          then (p.validator (get "response" envelope)
              >> ok (answered (ok (get "response" envelope))))
          else (daemon_error (get "error" envelope) p.request_id >>= λ e. ok (answered (err e))))
  ]

  unfoldable pub handle_frame : List ℕ → Client → Client
  unfolding read_frame terminate settle
  handle_frame frame s = elim s.pending [
    | none ↦ terminate violation s
    | some p ↦ elim (read_frame frame p) [
      | answered outcome ↦ settle p.call outcome (record s { pending = none })
      | thrown e ↦ terminate e (settle p.call (err e) s)
    ]
  ]

  -- `#enqueue`: the call that waits, or what is thrown.
  unfoldable pub enqueue :
      (operation : Value)
      → (validator : Value → Check) → (options : Value) → (now : ℕ) → Client
      → Outcome ClientError Client
  unfolding exact_object make_boundary
  enqueue operation validator options now s = do
    exact_object options [] ("timeoutMs" ∷ "deadlineUnixMs" ∷ "signal" ∷ [])
    deadline ← make_boundary c c.default_timeout now options
    ok (record s {
      calls = s.calls + 1;
      waiting =
          s.waiting
          ++ (record {
            number = s.calls;
            operation = operation;
            validator = validator;
            deadline = deadline;
            aborted = false;
            rejected = false;
          }
              ∷ []);
    })

  -- What a job asks when its turn comes.
  unfoldable pub admit : (now : ℕ) → Call → Client → Check
  unfolding ensure_boundary
  admit now call s = do
    ensure_boundary now call.aborted call.deadline
    if s.closed then err (failure client_closed) else ok tt
    elim s.terminal_error [ none ↦ ok tt | some e ↦ err e ]

  -- The checks of `#roundTrip` before anything is written.
  unfoldable pub check_request : Envelope → Check
  unfolding identifier
  check_request envelope = do
    identifier (string envelope.request_id)
    expect (leb (c.frame_size envelope) max_frame_bytes)

  -- The request is pending and written.
  unfoldable pub send : Envelope → Call → Client → Client
  send envelope call s = record s {
    pending = some (record {
      request_id = envelope.request_id;
      validator = call.validator;
      call = call.number;
    });
    running = some (record {
      call = call.number;
      request_id = envelope.request_id;
      answered = call.rejected;
      cancelling = false;
    });
    written = envelope ∷ s.written;
  }

  unfoldable pub round_trip : Call → Client → Client
  unfolding answer check_request send
  round_trip call s = elim s.pending [
    | some p ↦ answer call.rejected call.number (err violation) s
    | none ↦
        let envelope : Envelope = record {
          request_id = c.name (s.counter + 1);
          deadline = call.deadline;
          operation = call.operation;
        } in
        elim (check_request envelope) [
          | err e ↦ answer call.rejected call.number (err e) (record s { counter = s.counter + 1 })
          | ok u ↦ send envelope call (record s { counter = s.counter + 1 })
        ]
  ]

  -- The job of a call whose turn it is.
  unfoldable pub start : (now : ℕ) → Call → Client → Client
  unfolding admit answer round_trip
  start now call s = elim (admit now call s) [
    | err e ↦ answer call.rejected call.number (err e) s
    | ok u ↦ round_trip call s
  ]

  -- The next job of `#tail`, once the one before is settled.
  unfoldable pub take_turn : (now : ℕ) → Client → Client
  unfolding start
  take_turn now s = elim s.running [
    | some r ↦ s
    | none ↦ elim s.waiting [
      | [] ↦ s
      | call ∷ calls ↦ start now call (record s { waiting = calls })
    ]
  ]

  -- `raceBoundary`, or `beginCancellation`, when the boundary of the running call is reached.
  unfoldable pub reach_boundary : Reason → ClientError → Running → Client → Client
  unfolding terminate settle
  reach_boundary reason error r s =
      if not c.active_cancellation
      then settle r.call (err error) (terminate error s)
      else if r.cancelling
      then s
      else record s {
        running = some (record r { cancelling = true });
        controls = (r.request_id, reason) ∷ s.controls;
      }

  -- The grace of a cancellation is over.
  unfoldable pub end_grace : Client → Client
  unfolding terminate settle
  end_grace s = elim s.running [
    | none ↦ s
    | some r ↦
        if r.cancelling
        then settle r.call (err (passing_failure cancellation_unacknowledged))
            (terminate (passing_failure cancellation_unacknowledged) s)
        else s
  ]

  unfoldable pub finish_close : Client → Client
  finish_close s = record s { closed = true; destroyed = true }

  -- `close()`, up to its await.
  unfoldable pub close : Client → Client
  unfolding finish_close settle
  close s = if s.closed then s else elim s.pending [
    | none ↦ finish_close s
    | some p ↦
        if c.active_cancellation
        then record s {
          controls = (p.request_id, disconnect_reason) ∷ s.controls;
          closing = p.request_id ∷ s.closing;
        }
        else finish_close
            (settle p.call (err (failure client_closed)) (record s { pending = none }))
  ]

  abbrev waits_for : String → Option Pending → Bool
  waits_for request none = false
  waits_for request (some p) = same_text p.request_id request

  -- The rest of `close()`, after the request's end or the grace.
  unfoldable pub resume_close : (request : String) → Client → Client
  unfolding finish_close terminate
  resume_close request s = finish_close (
      if waits_for request s.pending
      then terminate (passing_failure cancellation_unacknowledged) s
      else s)
