-- ===== src/Runtime/Options/Tests.antt =====
-- A configuration with the defaults and one limit of its own.
use qq_index.Prelude.{◌≤◌, ◌≡◌, refl, true, ok}
use qq_index.Runtime.Options.{
  undefined, integer, RawOptions, with_enabled, Options, Limits, bounded_integer_option,
  copy_bounded_source_option, validate_options, validate_session_index_config, source_limits,
}
use qq_index.Runtime.Options.Accepted.{accepted_config_lem}

abbrev raw_options : RawOptions
raw_options = record {
  known_keys = true;
  socket_path = true;
  connect_timeout = undefined;
  request_timeout = undefined;
  monitor_interval = undefined;
  restart_initial_backoff = integer 500;
  restart_max_backoff = undefined;
  max_batch_documents = integer 64;
  max_batch_payload_bytes = undefined;
  max_buffered_sessions = undefined;
  max_corpus_sessions = undefined;
}

abbrev options : Options
options = record {
  connect_timeout = 2000;
  request_timeout = 5000;
  monitor_interval = 5000;
  restart_initial_backoff = 500;
  restart_max_backoff = 10000;
  max_batch_documents = integer 64;
  max_batch_payload_bytes = undefined;
  max_buffered_sessions = undefined;
  max_corpus_sessions = undefined;
}

accepted_config_example :
    (options.restart_initial_backoff ≤ options.restart_max_backoff)
    × (100 ≤ options.monitor_interval)
    × ((limits : Limits) × (source_limits options ≡ ok limits)
        × (1 ≤ limits.batch_documents)
        × (limits.batch_documents ≤ 1024)
        × (1024 ≤ limits.batch_payload_bytes)
        × (1 ≤ limits.buffered_sessions)
        × (1 ≤ limits.corpus_sessions))
unfolding validate_session_index_config validate_options bounded_integer_option
    copy_bounded_source_option
accepted_config_example = accepted_config_lem (with_enabled raw_options) options refl
