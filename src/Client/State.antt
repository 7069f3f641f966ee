-- ===== src/Client/State.antt =====
-- The fields of `SessionIndexClient` in src/session-index-client.mjs, and the boundaries of a call.
use Prim.Native.String.{String}
use qq_index.Prelude.{
  ℕ, zero, suc, ◌+◌, min, Bool, true, false, not, ◌||◌, Option, none, some, List, [], leb,
  if◌then◌else◌, Outcome, ok, err, ◌>>=◌, ◌>>◌,
}
use qq_index.Client.Errors.{ClientError, invalid, deadline_error, abort_error}
use qq_index.Client.Values.{Value, number, whole, get}
use qq_index.Client.Checks.{Check, expect, safe_integer, timeout}
use qq_index.Client.Requests.{is_defined}

-- What is written for a request.
pub record Envelope : Type 0 where
  pub request_id : String
  pub deadline : ℕ
  pub operation : Value

-- What does not change, and the code that is not the client's: `name` makes a request's id from its number,
-- `parse` is `JSON.parse` of a frame's text, none where it throws, `frame_size` is the length of the encoded
-- envelope without its newline, and `is_signal` is `instanceof AbortSignal`.
pub record Setting : Type 0 where
  pub active_cancellation : Bool
  pub default_timeout : ℕ
  pub name : ℕ → String
  pub parse : List ℕ → Option Value
  pub frame_size : Envelope → ℕ
  pub is_signal : Value → Bool

-- A call whose job has not started: `number` names it, `deadline` is that of its boundary, `aborted` is its signal's
-- state, and `rejected` says whether `raceQueuedBoundary` has rejected it.
pub record Call : Type 0 where
  pub number : ℕ
  pub operation : Value
  pub validator : Value → Check
  pub deadline : ℕ
  pub aborted : Bool
  pub rejected : Bool

-- `#pending`
pub record Pending : Type 0 where
  pub request_id : String
  pub validator : Value → Check
  pub call : ℕ

-- The call whose job has started, and is not settled: `answered` if it was rejected before, `cancelling` as in
-- `activeCancellationBoundary`.
pub record Running : Type 0 where
  pub call : ℕ
  pub request_id : String
  pub answered : Bool
  pub cancelling : Bool

pub data Reason : Type 0 where
  caller_reason deadline_reason disconnect_reason : Reason

-- `waiting` and `running` are the jobs of `#tail`; `settled` are the calls whose promises are settled, the latest
-- first, `written` the requests written and `controls` the cancellations sent, the latest first, and `closing` the
-- requests that a `close()` waits for.
pub record Client : Type 0 where
  pub pending : Option Pending
  pub counter : ℕ
  pub terminal_error : Option ClientError
  pub closed : Bool
  pub destroyed : Bool
  pub calls : ℕ
  pub waiting : List Call
  pub running : Option Running
  pub settled : List (ℕ × Outcome ClientError Value)
  pub written : List Envelope
  pub controls : List (String × Reason)
  pub closing : List String

unfoldable pub init : Client
init = record {
  pending = none;
  counter = 0;
  terminal_error = none;
  closed = false;
  destroyed = false;
  calls = 0;
  waiting = [];
  running = none;
  settled = [];
  written = [];
  controls = [];
  closing = [];
}

abbrev pub is_some {ℓ} : {A : Type ℓ} → Option A → Bool
is_some none = false
is_some (some a) = true

-- `deadlineUnixMs`, where it is given.
abbrev positive_integer : Value → Outcome ClientError ℕ
positive_integer (number (whole zero)) = err invalid
positive_integer (number (whole (suc n))) = ok (suc n)
positive_integer v = err invalid

unfoldable pub given_deadline : Value → Outcome ClientError (Option ℕ)
unfolding is_defined safe_integer
given_deadline v =
    if is_defined v then safe_integer v >> (positive_integer v >>= λ n. ok (some n)) else ok none

unfoldable pub given_timeout : ℕ → Value → Outcome ClientError ℕ
unfolding is_defined timeout
given_timeout default_timeout v = if is_defined v then timeout v else ok default_timeout

abbrev earlier : Option ℕ → ℕ → ℕ
earlier none t = t
earlier (some d) t = min d t

-- `makeBoundary`: the deadline of a call that is made at `now`.
unfoldable pub make_boundary :
    (c : Setting) → (default_timeout now : ℕ) → (options : Value) → Outcome ClientError ℕ
unfolding is_defined given_deadline given_timeout
make_boundary c default_timeout now options = do
  expect (not (is_defined (get "signal" options)) || c.is_signal (get "signal" options))
  given ← given_deadline (get "deadlineUnixMs" options)
  limit ← given_timeout default_timeout (get "timeoutMs" options)
  ok (earlier given (now + limit))

-- `ensureBoundary`
unfoldable pub ensure_boundary : (now : ℕ) → (is_aborted : Bool) → (end_time : ℕ) → Check
ensure_boundary now is_aborted end_time =
    if is_aborted then err abort_error else if leb end_time now then err deadline_error else ok tt
