-- ===== src/Runtime/Operations/Tests.antt =====
-- A call with a timeout of its own.
use qq_index.Prelude.{true, none}
use qq_index.Runtime.Options.{undefined, integer}
use qq_index.Runtime.Operations.{RawOperation, Operation}

abbrev raw_operation : RawOperation
raw_operation = record {
  known_keys = true;
  timeout = integer 250;
  deadline = undefined;
  signal_shape = true;
  signal = none;
}

abbrev operation : Operation
operation = record { timeout = integer 250; deadline = undefined; signal = none }
