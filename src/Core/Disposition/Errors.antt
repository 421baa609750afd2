-- ===== src/Core/Disposition/Errors.antt =====
-- The errors of crates/xde/src/core/error.rs and `classify_transport_error` of
-- crates/xde/src/core/disposition.rs.
use xde.Prelude.{ℕ, Option, none, List}
use xde.Core.Disposition.{
  Disposition, retry_same_range, back_off_origin, invalidate_artifact, full_body_for_range_request,
  quarantine_source, fatal, connection_dropped, origin_unreachable, io_error, connection_retired,
  connect_timeout, rate_limited, premature_eof, protocol_error, overlap_mismatch,
  representation_changed, cancelled, deadline_exceeded, unrecoverable,
}

-- The text of a message, which nothing here reads.
abbrev pub Message : Type 0
Message = List ℕ

-- `std::io::ErrorKind`: the kinds that the code tells apart.
pub data ErrorKind : Type 0 where
  connection_reset : ErrorKind
  connection_aborted : ErrorKind
  broken_pipe : ErrorKind
  unexpected_eof : ErrorKind
  timed_out : ErrorKind
  connection_refused : ErrorKind
  host_unreachable : ErrorKind
  other_kind : ErrorKind

pub data TransportError : Type 0 where
  io : ErrorKind → TransportError
  retired : Message → TransportError
  timeout : TransportError
  handshake_failed : Message → TransportError
  tls : Message → TransportError

pub data HttpError : Type 0 where
  protocol : Message → HttpError
  range_unsupported : ℕ → HttpError
  oversized_body : ℕ → ℕ → HttpError
  short_body : ℕ → ℕ → HttpError
  invalid_status : ℕ → HttpError
  unexpected_status : ℕ → Message → HttpError
  unexpected_partial_content : HttpError
  compressed_payload : HttpError
  limited : Option ℕ → HttpError
  capability_lost : HttpError
  dispositioned : Disposition → ℕ → HttpError

pub data DestinationError : Type 0 where
  destination_io : ErrorKind → DestinationError
  rejected : Message → DestinationError
  enospc : DestinationError
  lease_conflict : Message → DestinationError
  non_idempotent_retry : Message → DestinationError

pub data PersistenceError : Type 0 where
  persistence_io : ErrorKind → PersistenceError
  corrupt : Message → PersistenceError

pub data ResolverError : Type 0 where
  resolver_io : ErrorKind → ResolverError
  not_found : Message → ResolverError
  resolver_timeout : ResolverError

-- `Error`; the payloads of `Runtime` and `Other` come from elsewhere.
pub data Error : Type 0 where
  transport : TransportError → Error
  http : HttpError → Error
  destination : DestinationError → Error
  persistence : PersistenceError → Error
  resolver : ResolverError → Error
  changed : Message → Error
  integrity : Message → Error
  mismatch : ℕ → Error
  credentials_expired : Error
  job_cancelled : Error
  deadline : Error
  stalled : Message → Error
  engine_gone : Error
  config : Message → Error
  runtime : Message → Error
  other : Message → Error

-- The arm for `TransportError::Io`.
unfoldable pub classify_io : ErrorKind → Disposition
classify_io connection_reset = retry_same_range none connection_dropped
classify_io connection_aborted = retry_same_range none connection_dropped
classify_io broken_pipe = retry_same_range none connection_dropped
classify_io unexpected_eof = retry_same_range none connection_dropped
classify_io timed_out = retry_same_range none connection_dropped
classify_io connection_refused = back_off_origin none origin_unreachable
classify_io host_unreachable = back_off_origin none origin_unreachable
classify_io other_kind = retry_same_range none io_error

unfoldable pub classify_transport : TransportError → Disposition
unfolding classify_io
classify_transport (io kind) = classify_io kind
classify_transport (retired _) = retry_same_range none connection_retired
classify_transport timeout = back_off_origin none connect_timeout
classify_transport (handshake_failed _) = fatal 0 unrecoverable
classify_transport (tls _) = fatal 0 unrecoverable

unfoldable pub classify_http : HttpError → Disposition
classify_http (limited after) = back_off_origin after rate_limited
classify_http (short_body _ _) = retry_same_range none premature_eof
classify_http capability_lost = full_body_for_range_request
classify_http (dispositioned d _) = d
classify_http (protocol _) = retry_same_range none protocol_error
classify_http (range_unsupported _) = fatal 0 unrecoverable
classify_http (oversized_body _ _) = fatal 0 unrecoverable
classify_http (invalid_status _) = fatal 0 unrecoverable
classify_http (unexpected_status _ _) = fatal 0 unrecoverable
classify_http unexpected_partial_content = fatal 0 unrecoverable
classify_http compressed_payload = fatal 0 unrecoverable

unfoldable pub classify_transport_error : Error → Disposition
unfolding classify_transport classify_http
classify_transport_error (transport e) = classify_transport e
classify_transport_error (http e) = classify_http e
classify_transport_error (mismatch _) = quarantine_source overlap_mismatch
classify_transport_error (changed _) = invalidate_artifact representation_changed
classify_transport_error job_cancelled = fatal 0 cancelled
classify_transport_error deadline = fatal 0 deadline_exceeded
classify_transport_error (destination _) = fatal 0 unrecoverable
classify_transport_error (persistence _) = fatal 0 unrecoverable
classify_transport_error (resolver _) = fatal 0 unrecoverable
classify_transport_error (integrity _) = fatal 0 unrecoverable
classify_transport_error credentials_expired = fatal 0 unrecoverable
classify_transport_error (stalled _) = fatal 0 unrecoverable
classify_transport_error engine_gone = fatal 0 unrecoverable
classify_transport_error (config _) = fatal 0 unrecoverable
classify_transport_error (runtime _) = fatal 0 unrecoverable
classify_transport_error (other _) = fatal 0 unrecoverable
