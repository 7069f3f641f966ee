-- ===== src/Runtime/Operations/Timeouts.antt =====
-- The timeout of a call.
use qq_index.Prelude.{ℕ, ◌≤◌, ◌≡◌, some, arith, ok}
use qq_index.Runtime.Options.{
  Value, undefined, other, integer, bounded_integer_option, copy_bounded_source_option,
}
use qq_index.Runtime.Operations.{
  RawOperation, Operation, validate_operation_options, operation_timeout, operation_options,
}

timeout_bounds :
    (v copied : Value) (fallback : ℕ)
    → copy_bounded_source_option v 1 600000 ≡ ok copied
    → 1 ≤ fallback
    → fallback ≤ 600000
    → (1 ≤ operation_timeout copied fallback) × (operation_timeout copied fallback ≤ 600000)
unfolding copy_bounded_source_option bounded_integer_option operation_timeout
timeout_bounds undefined copied fallback h low high = (ground arith, ground arith)
timeout_bounds other copied fallback h low high = cc
timeout_bounds (integer n) copied fallback h low high = (ground arith, ground arith)

-- If the options of a call are accepted and the configured timeout is between 1 ms and 600 s, then so is the
-- timeout that the client is called with.
pub operation_options_lem :
    (raw : RawOperation) (o : Operation) (fallback : ℕ)
    → validate_operation_options (some raw) ≡ ok o
    → 1 ≤ fallback
    → fallback ≤ 600000
    → (1 ≤ (operation_options o fallback).timeout)
      × ((operation_options o fallback).timeout ≤ 600000)
unfolding validate_operation_options operation_options
operation_options_lem raw o fallback h low high =
    timeout_bounds raw.timeout o.timeout fallback (ground arith) low high
