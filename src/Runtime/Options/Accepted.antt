-- ===== src/Runtime/Options/Accepted.antt =====
-- What an accepted configuration gives.
use qq_index.Prelude.{ℕ, ◌≤◌, ◌≡◌, arith, ok, ◌*◌}
use qq_index.Runtime.Options.{
  Value, undefined, other, integer, RawOptions, RawConfig, absent, malformed, not_enabled,
  with_enabled, Options, on, Limits, bounded_integer_option, copy_bounded_source_option,
  validate_options, validate_session_index_config, source_limits,
}

option_bounds :
    (v : Value) (fallback minimum maximum n : ℕ)
    → minimum ≤ fallback
    → fallback ≤ maximum
    → bounded_integer_option v fallback minimum maximum ≡ ok n
    → (minimum ≤ n) × (n ≤ maximum)
unfolding bounded_integer_option
option_bounds undefined fallback minimum maximum n low high h = (ground arith, ground arith)
option_bounds other fallback minimum maximum n low high h = cc
option_bounds (integer m) fallback minimum maximum n low high h = (ground arith, ground arith)

-- A value that is copied is accepted once more with the same range.
copied-accepted :
    (v copied : Value) (fallback minimum maximum : ℕ)
    → minimum ≤ fallback
    → fallback ≤ maximum
    → copy_bounded_source_option v minimum maximum ≡ ok copied
    → (n : ℕ) × (bounded_integer_option copied fallback minimum maximum ≡ ok n)
      × (minimum ≤ n)
      × (n ≤ maximum)
unfolding bounded_integer_option copy_bounded_source_option
copied-accepted undefined copied fallback minimum maximum low high h =
    (fallback, ground arith, low, high)
copied-accepted other copied fallback minimum maximum low high h = cc
copied-accepted (integer m) copied fallback minimum maximum low high h =
    (m, ground arith, ground arith, ground arith)

validate_options_lem :
    (raw : RawOptions) (o : Options)
    → validate_options raw ≡ ok o
    → (o.restart_initial_backoff ≤ o.restart_max_backoff)
      × (bounded_integer_option raw.monitor_interval 5000 100 600000 ≡ ok o.monitor_interval)
      × (copy_bounded_source_option raw.max_batch_documents 1 1024 ≡ ok o.max_batch_documents)
      × (copy_bounded_source_option raw.max_batch_payload_bytes 1024 (900 * 1024)
          ≡ ok o.max_batch_payload_bytes)
      × (copy_bounded_source_option raw.max_buffered_sessions 1 4096 ≡ ok o.max_buffered_sessions)
      × (copy_bounded_source_option raw.max_corpus_sessions 1 100000 ≡ ok o.max_corpus_sessions)
unfolding validate_options
validate_options_lem raw o h =
    (ground arith, ground arith, ground arith, ground arith, ground arith, ground arith)

-- If a configuration is accepted with the index enabled, then the first back-off is at most the greatest, the
-- monitor's interval is at least 100 ms, and the source's constructor accepts the limits that are passed on.
pub accepted_config_lem :
    (raw : RawConfig) (o : Options)
    → validate_session_index_config raw ≡ ok (on o)
    → (o.restart_initial_backoff ≤ o.restart_max_backoff)
      × (100 ≤ o.monitor_interval)
      × ((limits : Limits) × (source_limits o ≡ ok limits)
          × (1 ≤ limits.batch_documents)
          × (limits.batch_documents ≤ 1024)
          × (1024 ≤ limits.batch_payload_bytes)
          × (1 ≤ limits.buffered_sessions)
          × (1 ≤ limits.corpus_sessions))
unfolding validate_session_index_config source_limits
accepted_config_lem absent o h = cc
accepted_config_lem malformed o h = cc
accepted_config_lem not_enabled o h = cc
accepted_config_lem (with_enabled raw) o h =
    let made : validate_options raw ≡ ok o = ground arith in
    let (backoff, monitor, documents, payload, sessions, corpus) =
      validate_options_lem raw o made in
    let (often, seldom) =
      option_bounds raw.monitor_interval 5000 100 600000 o.monitor_interval (omega arith)
        (omega arith) monitor in
    let (d, d_ok, d_low, d_high) =
      copied-accepted raw.max_batch_documents o.max_batch_documents 256 1 1024 (omega arith)
        (omega arith) documents in
    let (p, p_ok, p_low, p_high) =
      copied-accepted raw.max_batch_payload_bytes o.max_batch_payload_bytes (768 * 1024) 1024
        (900 * 1024) (omega arith) (omega arith) payload in
    let (s, s_ok, s_low, s_high) =
      copied-accepted raw.max_buffered_sessions o.max_buffered_sessions 4096 1 4096 (omega arith)
        (omega arith) sessions in
    let (c, c_ok, c_low, c_high) =
      copied-accepted raw.max_corpus_sessions o.max_corpus_sessions 100000 1 100000 (omega arith)
        (omega arith) corpus in
    (
      backoff,
      often,
      (
        record {
          batch_documents = d;
          batch_payload_bytes = p;
          buffered_sessions = s;
          corpus_sessions = c;
        },
        ground (arith, d_ok, p_ok, s_ok, c_ok),
        d_low,
        d_high,
        p_low,
        s_low,
        c_low,
      ),
    )
