-- ===== src/Dsh/Errors.antt =====
-- What src/session-index-dsh-source.mjs throws, one constructor for each `throw`; `external` is an
-- error of a collaborator (the daemon client, the session query service, a subscription).
pub data SourceError : Type 0 where
  source_closed source_paused not_live source_failed : SourceError
  event_exceeds_payload queue_overflow : SourceError
  log_shorter workspace_mismatch watermark_exhausted watermark_backwards : SourceError
  malformed : SourceError
  external : SourceError
