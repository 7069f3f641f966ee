-- ===== src/Client/Tests.antt =====
-- Runs of the client of src/session-index-client.mjs.
use Prim.Native.String.{String}
use qq_index.Prelude.{
  ℕ, ◌≡◌, refl, true, false, some, List, [], ◌∷◌, map, flatten, ok, arith, ◌==◌, if◌then◌else◌,
}
use qq_index.Client.Values.{
  Value, string, number, boolean, array, object, whole, no_items, item, no_fields, field, Items,
  Fields, get, strict_equal,
}
use qq_index.Client.Checks.{Check}
use qq_index.Client.State.{Setting, Client, Pending, Running, is_some}
use qq_index.Client.State
use qq_index.Client.Handle.{handle_frame}
use qq_index.Client.Frames.{Stream}
use qq_index.Client.Frames.Bytes.{feed_all}
use qq_index.Client.Frames.Cuts.{forget}
use qq_index.Client.Step.{Event, called, turn_came, data_arrived, socket_ended, owner, run}
use qq_index.Client.Step.Invariant.{settled_count}
use qq_index.Client.Step.Preserved.{Inv}
use qq_index.Client.Step.Promises.{fresh, calls_settle_once}
use qq_index.Client.Step.Quiet.{has_ended, quiet_after_end}
use qq_index.Client.Step.Draining.{drained_after_failure}
use qq_index.Client.Step.Answers.{responses, response_lem}
use qq_index.Client.Step.Cuts.{received_bytes}

-- An object of the given fields, and an array of the given values.
abbrev pub fields : List (String × Value) → Fields
fields [] = no_fields
fields ((k, v) ∷ fs) = field k v (fields fs)

abbrev pub obj : List (String × Value) → Value
obj fs = object true (fields fs)

abbrev pub items : List Value → Items
items [] = no_items
items (v ∷ vs) = item v (items vs)

abbrev pub arr : List Value → Value
arr vs = array (items vs)

abbrev pub num : ℕ → Value
num n = number (whole n)

abbrev any_response : Value → Check
any_response v = ok tt

-- Every frame reads as this envelope.
abbrev good_envelope : Value
good_envelope = obj (
    ("protocolVersion", string "qq-session-index-protocol-v1")
    ∷ ("requestId", string "r1")
    ∷ ("ok", boolean true)
    ∷ ("response", num 7)
    ∷ [])

abbrev setting : Setting
setting = record {
  active_cancellation = true;
  default_timeout = 5000;
  name = λ n. if n == 1 then "r1" else "r2";
  parse = λ frame. some good_envelope;
  frame_size = λ e. 100;
  is_signal = λ v. false;
}

-- Two calls; the first is sent and answered, the second is sent, and the daemon goes.
abbrev two_calls : List Event
two_calls =
    called (num 1) any_response (obj []) 0
    ∷ called (num 2) any_response (obj []) 0
    ∷ turn_came 1
    ∷ data_arrived (65 ∷ 10 ∷ [])
    ∷ turn_came 2
    ∷ socket_ended
    ∷ []

two_calls_settled : settled_count 1 (run setting two_calls fresh).owner.settled ≡ 1
unfolding settled_count run State.init get
two_calls_settled = refl

two_calls_answered : responses (run setting two_calls fresh).owner.settled ≡ (0, num 7) ∷ []
unfolding responses run State.init get
two_calls_answered = refl

calls_settle_once_example : Inv (run setting two_calls fresh).owner
calls_settle_once_example = calls_settle_once setting two_calls

abbrev closed_stream : Stream Client
closed_stream = record { buffer = []; owner = record State.init { closed = true } }

quiet_after_end_example :
    (has_ended (run setting two_calls closed_stream).owner ≡ true)
    × ((run setting two_calls closed_stream).owner.written ≡ closed_stream.owner.written)
unfolding has_ended State.init
quiet_after_end_example = quiet_after_end setting two_calls closed_stream refl

-- Two calls wait when the daemon goes.
abbrev failed_waiting : List Event
failed_waiting =
    called (num 1) any_response (obj []) 0
    ∷ called (num 2) any_response (obj []) 0
    ∷ socket_ended
    ∷ []

drained_after_failure_example :
    settled_count 1
      (run setting (map turn_came (1 ∷ 2 ∷ [])) (run setting failed_waiting fresh)).owner.settled
    ≡ 1
unfolding run State.init get
drained_after_failure_example =
    drained_after_failure setting failed_waiting (1 ∷ 2 ∷ []) 1 refl (omega arith) (omega arith)

abbrev busy : Client
busy = record State.init {
  pending = some (record { request_id = "r1"; validator = any_response; call = 0 });
  running = some (record { call = 0; request_id = "r1"; answered = false; cancelling = true });
  calls = 1;
  counter = 1;
}

response_example :
    (p : Pending) × (busy.pending ≡ some p)
    × (p.call ≡ 0)
    × ((envelope : Value) × (setting.parse (65 ∷ []) ≡ some envelope)
        × (strict_equal (get "requestId" envelope) (string p.request_id) ≡ true)
        × (num 7 ≡ get "response" envelope)
        × (p.validator (num 7) ≡ ok tt))
unfolding responses handle_frame State.init get
response_example = response_lem setting (65 ∷ []) 0 (num 7) busy refl

abbrev busy_running : Running
busy_running = record { call = 0; request_id = "r1"; answered = false; cancelling = true }

abbrev busy_stream : Stream Client
busy_stream = record { buffer = []; owner = busy }

received_bytes_example :
    forget
      (owner setting)
      (run setting (map data_arrived ((65 ∷ []) ∷ (10 ∷ []) ∷ [])) (run setting two_calls fresh))
    ≡ forget (owner setting) (
        feed_all
          (owner setting)
          (flatten ((65 ∷ []) ∷ (10 ∷ []) ∷ []))
          (run setting two_calls fresh))
received_bytes_example = received_bytes setting two_calls ((65 ∷ []) ∷ (10 ∷ []) ∷ [])
