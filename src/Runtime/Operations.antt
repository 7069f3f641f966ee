-- ===== src/Runtime/Operations.antt =====
-- `validateOperationOptions` and `operationOptions` of src/session-index-runtime.mjs.
pub mod Timeouts
mod Tests
use qq_index.Prelude.{
  ℕ, Bool, true, false, Option, none, some, leb, ◌&&◌, Outcome, ok, err, ◌>>=◌, ◌>>◌, require,
}
use qq_index.Dsh.Decimal.{max_safe_integer}
use qq_index.Runtime.Options.{
  Value, undefined, other, integer, Refused, type_error, bounded_integer_option,
  copy_bounded_source_option,
}

-- `known_keys` and `signal_shape` are what the checks of the keys and of the signal find; a signal is a number.
pub record RawOperation : Type 0 where
  pub known_keys : Bool
  pub timeout : Value
  pub deadline : Value
  pub signal_shape : Bool
  pub signal : Option ℕ

pub record Operation : Type 0 where
  pub timeout : Value
  pub deadline : Value
  pub signal : Option ℕ

unfoldable pub validate_operation_options : Option RawOperation → Outcome Refused Operation
validate_operation_options none =
    ok (record { timeout = undefined; deadline = undefined; signal = none })
validate_operation_options (some raw) = do
  require raw.known_keys type_error
  timeout ← copy_bounded_source_option raw.timeout 1 600000
  deadline ← copy_bounded_source_option raw.deadline 1 max_safe_integer
  require raw.signal_shape type_error
  ok (record { timeout = timeout; deadline = deadline; signal = raw.signal })

-- `boundary.timeoutMs ?? fallbackTimeoutMs`
unfoldable pub operation_timeout : Value → ℕ → ℕ
operation_timeout (integer n) fallback = n
operation_timeout _ fallback = fallback

-- The options that a client is called with.
pub record ClientOptions : Type 0 where
  pub timeout : ℕ
  pub deadline : Value
  pub signal : Option ℕ

unfoldable pub operation_options : Operation → ℕ → ClientOptions
unfolding operation_timeout
operation_options boundary fallback = record {
  timeout = operation_timeout boundary.timeout fallback;
  deadline = boundary.deadline;
  signal = boundary.signal;
}
