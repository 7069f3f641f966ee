-- ===== src/Client/Control.antt =====
-- src/session-index-client.mjs: `sendCancellationControl` and `oneShotControlRoundTrip`, the cancellation that is
-- sent over a socket of its own, and `connectSessionIndexClient`. `parse` is `JSON.parse` of the text of bytes,
-- none where it throws.
pub mod Once
use Prim.Native.String.{String}
use qq_index.Prelude.{
  ℕ, Bool, true, false, not, ◌||◌, Option, none, some, List, [], ◌∷◌, ◌++◌, take, ltb, length,
  if◌then◌else◌, Outcome, ok, err, ◌>>=◌, ◌>>◌,
}
use qq_index.Client.Errors.{
  ClientError, invalid, violation, socket_failure, passing_failure, socket_closed,
  cancellation_control_timeout,
}
use qq_index.Client.Values.{Value, string, boolean, get}
use qq_index.Client.Checks.{Check, expect, exact_object, bounded_string, boolean_value, timeout}
use qq_index.Client.Responses.{
  max_frame_bytes, validate_envelope, validate_cancel_response, daemon_error, is_true,
}
use qq_index.Client.Requests.{is_defined}
use qq_index.Client.Frames.{index_of_newline}
use qq_index.Client.State.{Setting, make_boundary, ensure_boundary}

-- The bytes of the answer so far, and what the promise has settled with.
pub record Exchange : Type 0 where
  pub buffer : List ℕ
  pub outcome : Option (Outcome ClientError Value)

pub data ControlEvent : Type 0 where
  timed_out control_failed control_ended : ControlEvent
  control_data : List ℕ → ControlEvent

-- `finish`
unfoldable pub finish_control : Outcome ClientError Value → Exchange → Exchange
finish_control result x = elim x.outcome [ some o ↦ x | none ↦ record x { outcome = some result } ]

abbrev parsed : Option Value → Outcome ClientError Value
parsed none = err violation
parsed (some v) = ok v

module _ (parse : List ℕ → Option Value) where
  -- What the bytes so far decide.
  unfoldable pub read_control : List ℕ → Option (Outcome ClientError Value)
  unfolding index_of_newline
  read_control buffer = elim (index_of_newline buffer) [
    | none ↦ if ltb max_frame_bytes (length buffer) then some (err violation) else none
    | some n ↦
        if ltb max_frame_bytes n
        then some (err violation)
        else some (parsed (parse (take n buffer)))
  ]

  abbrev decide : Option (Outcome ClientError Value) → Exchange → Exchange
  decide none x = x
  decide (some o) x = finish_control o x

  unfoldable pub control_step : ControlEvent → Exchange → Exchange
  unfolding finish_control read_control
  control_step timed_out x = finish_control (err (passing_failure cancellation_control_timeout)) x
  control_step control_failed x = finish_control (err socket_failure) x
  control_step control_ended x = finish_control (err (passing_failure socket_closed)) x
  control_step (control_data chunk) x =
      decide (read_control (x.buffer ++ chunk)) (record x { buffer = x.buffer ++ chunk })

  unfoldable pub control_run : List ControlEvent → Exchange → Exchange
  unfolding control_step
  control_run [] x = x
  control_run (event ∷ events) x = control_run events (control_step event x)

-- The end of `sendCancellationControl`: what it makes of the answer to its request.
unfoldable pub accept_control : (request_id target : String) → Value → Outcome ClientError Value
unfolding validate_envelope daemon_error validate_cancel_response
accept_control request_id target response = do
  validate_envelope response request_id
  if is_true (get "ok" response)
      then ok tt
      else (daemon_error (get "error" response) request_id >>= λ e. err e)
  validate_cancel_response (get "response" response) target
  ok (get "response" response)

-- What `connectSessionIndexClient` makes of its options.
pub record Connect : Type 0 where
  pub default_timeout : ℕ
  pub deadline : ℕ
  pub active_cancellation : Bool

abbrev is_false : Value → Bool
is_false (boolean false) = true
is_false v = false

unfoldable pub connect_options :
    (c : Setting)
    → (is_absolute : Value → Bool) → (now : ℕ) → (is_aborted : Bool) → (options : Value)
    → Outcome ClientError Connect
unfolding exact_object is_defined boolean_value bounded_string timeout make_boundary ensure_boundary
connect_options c is_absolute now is_aborted options = do
  exact_object options ("socketPath" ∷ [])
      ("timeoutMs" ∷ "deadlineUnixMs" ∷ "signal" ∷ "activeCancellation" ∷ [])
  if is_defined (get "activeCancellation" options)
      then boolean_value (get "activeCancellation" options)
      else ok tt
  bounded_string (get "socketPath" options) 1 4096
  expect (is_absolute (get "socketPath" options))
  limit ←
      if is_defined (get "timeoutMs" options) then timeout (get "timeoutMs" options) else ok 5000
  end_time ← make_boundary c limit now options
  ensure_boundary now is_aborted end_time
  ok (record {
    default_timeout = limit;
    deadline = end_time;
    active_cancellation = not (is_false (get "activeCancellation" options));
  })

-- `normalizeSocketError`, of an error of the client or of another one.
unfoldable pub normalize_socket_error : Option ClientError → ClientError
normalize_socket_error none = socket_failure
normalize_socket_error (some e) = e

-- The rest of `connectSessionIndexClient`, given how the connection ended within its boundary, and how the health
-- call of the new client would; where that fails, the client is closed.
unfoldable pub finish_connect :
    Connect
    → (connected : Outcome (Option ClientError) (Unit {0})) → (healthy : Outcome ClientError Value)
    → Outcome ClientError Connect
unfolding normalize_socket_error
finish_connect connect (err e) healthy = err (normalize_socket_error e)
finish_connect connect (ok u) healthy =
    if connect.active_cancellation then (healthy >>= λ v. ok connect) else ok connect
