-- ===== src/Runtime/Options.antt =====
-- `validateSessionIndexConfig` of src/session-index-runtime.mjs, and the limits that the constructor of
-- src/session-index-dsh-source.mjs takes from it.
pub mod Accepted
mod Tests
use qq_index.Prelude.{
  ℕ, ◌*◌, Bool, true, false, ◌&&◌, ◌||◌, leb, ltb, if◌then◌else◌, Outcome, ok, err, ◌>>=◌, ◌>>◌,
  require,
}

-- What an option may be: `other` is anything but `undefined` and a safe integer that is not negative.
pub data Value : Type 0 where
  undefined other : Value
  integer : ℕ → Value

pub data Refused : Type 0 where
  type_error : Refused

-- `boundedIntegerOption`, and `boundedOption` of the source.
unfoldable pub bounded_integer_option : Value → ℕ → ℕ → ℕ → Outcome Refused ℕ
bounded_integer_option undefined fallback minimum maximum = ok fallback
bounded_integer_option other fallback minimum maximum = err type_error
bounded_integer_option (integer n) fallback minimum maximum =
    if leb minimum n && leb n maximum then ok n else err type_error

-- `copyBoundedSourceOption`: the value that is copied, if any.
unfoldable pub copy_bounded_source_option : Value → ℕ → ℕ → Outcome Refused Value
unfolding bounded_integer_option
copy_bounded_source_option undefined minimum maximum = ok undefined
copy_bounded_source_option other minimum maximum = err type_error
copy_bounded_source_option (integer n) minimum maximum = do
  m ← bounded_integer_option (integer n) 0 minimum maximum
  ok (integer m)

-- `known_keys` and `socket_path` are what the checks of the keys and of the socket's path find.
pub record RawOptions : Type 0 where
  pub known_keys : Bool
  pub socket_path : Bool
  pub connect_timeout : Value
  pub request_timeout : Value
  pub monitor_interval : Value
  pub restart_initial_backoff : Value
  pub restart_max_backoff : Value
  pub max_batch_documents : Value
  pub max_batch_payload_bytes : Value
  pub max_buffered_sessions : Value
  pub max_corpus_sessions : Value

-- `config.sessionIndex`, by what its `enabled` is.
pub data RawConfig : Type 0 where
  absent malformed not_enabled : RawConfig
  with_enabled : RawOptions → RawConfig

pub record Options : Type 0 where
  pub connect_timeout : ℕ
  pub request_timeout : ℕ
  pub monitor_interval : ℕ
  pub restart_initial_backoff : ℕ
  pub restart_max_backoff : ℕ
  pub max_batch_documents : Value
  pub max_batch_payload_bytes : Value
  pub max_buffered_sessions : Value
  pub max_corpus_sessions : Value

pub data Validated : Type 0 where
  off : Validated
  on : Options → Validated

unfoldable pub validate_options : RawOptions → Outcome Refused Options
validate_options raw = do
  require raw.known_keys type_error
  require raw.socket_path type_error
  connect ← bounded_integer_option raw.connect_timeout 2000 25 600000
  request ← bounded_integer_option raw.request_timeout 5000 25 600000
  monitor ← bounded_integer_option raw.monitor_interval 5000 100 600000
  initial ← bounded_integer_option raw.restart_initial_backoff 250 10 60000
  maximum ← bounded_integer_option raw.restart_max_backoff 10000 10 60000
  require (leb initial maximum) type_error
  documents ← copy_bounded_source_option raw.max_batch_documents 1 1024
  payload ← copy_bounded_source_option raw.max_batch_payload_bytes 1024 (900 * 1024)
  sessions ← copy_bounded_source_option raw.max_buffered_sessions 1 4096
  corpus ← copy_bounded_source_option raw.max_corpus_sessions 1 100000
  ok (record {
    connect_timeout = connect;
    request_timeout = request;
    monitor_interval = monitor;
    restart_initial_backoff = initial;
    restart_max_backoff = maximum;
    max_batch_documents = documents;
    max_batch_payload_bytes = payload;
    max_buffered_sessions = sessions;
    max_corpus_sessions = corpus;
  })

unfoldable pub validate_session_index_config : RawConfig → Outcome Refused Validated
validate_session_index_config absent = ok off
validate_session_index_config malformed = err type_error
validate_session_index_config not_enabled = ok off
validate_session_index_config (with_enabled raw) = do
  options ← validate_options raw
  ok (on options)

-- The limits of the source.
pub record Limits : Type 0 where
  pub batch_documents : ℕ
  pub batch_payload_bytes : ℕ
  pub buffered_sessions : ℕ
  pub corpus_sessions : ℕ

unfoldable pub source_limits : Options → Outcome Refused Limits
source_limits options = do
  documents ← bounded_integer_option options.max_batch_documents 256 1 1024
  payload ← bounded_integer_option options.max_batch_payload_bytes (768 * 1024) 1024 (900 * 1024)
  sessions ← bounded_integer_option options.max_buffered_sessions 4096 1 4096
  corpus ← bounded_integer_option options.max_corpus_sessions 100000 1 100000
  ok (record {
    batch_documents = documents;
    batch_payload_bytes = payload;
    buffered_sessions = sessions;
    corpus_sessions = corpus;
  })
