-- ===== src/Core/Disposition.antt =====
-- `Disposition` and `classify_status` of crates/xde/src/core/disposition.rs: what to do about an HTTP
-- status. The reasons, which are string literals in the code, are constructors of Reason.
pub mod Errors
pub mod Statuses
pub mod Examples
use xde.Prelude.{
  ℕ, Bool, true, false, ◌&&◌, ◌||◌, Option, none, some, leb, ltb, ◌==◌, if◌then◌else◌,
}
use xde.Core.Ranges.{ByteRange}

pub data Reason : Type 0 where
  unresolved_redirect : Reason
  resource_gone : Reason
  request_timeout : Reason
  precondition_failed : Reason
  rate_limited : Reason
  upstream_error : Reason
  service_unavailable : Reason
  server_error : Reason
  unhandled_status : Reason
  connection_dropped : Reason
  origin_unreachable : Reason
  io_error : Reason
  connection_retired : Reason
  connect_timeout : Reason
  premature_eof : Reason
  protocol_error : Reason
  overlap_mismatch : Reason
  representation_changed : Reason
  cancelled : Reason
  deadline_exceeded : Reason
  unrecoverable : Reason

-- Durations are nanoseconds.
pub data Disposition : Type 0 where
  accept : Disposition
  retry_same_range : Option ℕ → Reason → Disposition
  back_off_origin : Option ℕ → Reason → Disposition
  refresh_credentials : ℕ → Disposition
  invalidate_artifact : Reason → Disposition
  recheck_length : Disposition
  full_body_for_range_request : Disposition
  range_capability_lost : Disposition
  quarantine_source : Reason → Disposition
  fatal : ℕ → Reason → Disposition

-- A range was asked for.
abbrev pub is_some : {A : Type 0} → Option A → Bool
is_some none = false
is_some (some _) = true

-- The arms are in the order of the code.
unfoldable pub classify_status : ℕ → Option ByteRange → Option ℕ → Bool → Disposition
classify_status status requested retry_after is_resume =
    if status == 200 && is_some requested
    then (if is_resume then full_body_for_range_request else accept)
    else if status == 200 || status == 204
    then accept
    else if status == 206
    then accept
    else if status == 301 || status == 302 || status == 303 || status == 307 || status == 308
    then fatal status unresolved_redirect
    else if status == 401 || status == 403
    then refresh_credentials status
    else if status == 404 || status == 410
    then fatal status resource_gone
    else if status == 408
    then retry_same_range none request_timeout
    else if status == 412
    then invalidate_artifact precondition_failed
    else if status == 416
    then recheck_length
    else if status == 429
    then back_off_origin retry_after rate_limited
    else if status == 500 || status == 502 || status == 504
    then retry_same_range none upstream_error
    else if status == 503
    then back_off_origin retry_after service_unavailable
    else if leb 500 status && ltb status 600
    then retry_same_range none server_error
    else fatal status unhandled_status
