-- ===== src/Core/Disposition/Statuses.antt =====
-- Which statuses and errors are accepted or retried: `classify_status` and
-- `classify_transport_error` of crates/xde/src/core/disposition.rs.
use xde.Prelude.{ℕ, ◌≤◌, ◌<◌, ◌≡◌, ◌↔◌, ◌⊎◌, inl, inr, refl, Bool, true, false, Option, arith}
use xde.Core.Ranges.{ByteRange}
use xde.Core.Disposition.{
  Disposition, accept, retry_same_range, back_off_origin, is_some, classify_status,
}
use xde.Core.Disposition.Errors.{
  Error, TransportError, HttpError, transport, http, destination, persistence, resolver, changed,
  integrity, mismatch, credentials_expired, job_cancelled, deadline, stalled, engine_gone, config,
  runtime, other, classify_transport_error,
}

-- The dispositions that send the request again.
abbrev pub is_retry : Disposition → Bool
is_retry (retry_same_range _ _) = true
is_retry (back_off_origin _ _) = true
is_retry _ = false

abbrev pub is_accept : Disposition → Bool
is_accept accept = true
is_accept _ = false

-- A response is accepted exactly if its status is 204 or 206, or it is 200 and no range was asked for
-- or the transfer does not resume: a 200 body is never written at a resume offset.
pub classify_status_accept :
    (status : ℕ) (requested : Option ByteRange) (retry_after : Option ℕ) (is_resume : Bool)
    → (is_accept (classify_status status requested retry_after is_resume) ≡ true) ↔ (
        (status ≡ 204)
        ⊎ (status ≡ 206)
        ⊎ ((status ≡ 200) × ((is_some requested ≡ false) ⊎ (is_resume ≡ false))))
unfolding classify_status
classify_status_accept status requested retry_after is_resume =
    ((λ h. ground arith), λ h. ground arith)

-- A request is sent again exactly for the statuses 408, 429 and 500 to 599.
pub classify_status_retry :
    (status : ℕ) (requested : Option ByteRange) (retry_after : Option ℕ) (is_resume : Bool)
    → (is_retry (classify_status status requested retry_after is_resume) ≡ true)
      ↔ ((status ≡ 408) ⊎ (status ≡ 429) ⊎ ((500 ≤ status) × (status < 600)))
unfolding classify_status
classify_status_retry status requested retry_after is_resume =
    ((λ h. ground arith), λ h. ground arith)

-- Only transport and HTTP errors are ever retried: an error of the destination, the journal, the
-- resolver or the configuration never is.
pub classify_transport_error_retry :
    (e : Error)
    → is_retry (classify_transport_error e) ≡ true
    → ((t : TransportError) × (e ≡ transport t)) ⊎ ((h : HttpError) × (e ≡ http h))
unfolding classify_transport_error
classify_transport_error_retry (transport t) h = inl (t, refl)
classify_transport_error_retry (http x) h = inr (x, refl)
classify_transport_error_retry (destination x) h = cc h
classify_transport_error_retry (persistence x) h = cc h
classify_transport_error_retry (resolver x) h = cc h
classify_transport_error_retry (changed x) h = cc h
classify_transport_error_retry (integrity x) h = cc h
classify_transport_error_retry (mismatch x) h = cc h
classify_transport_error_retry credentials_expired h = cc h
classify_transport_error_retry job_cancelled h = cc h
classify_transport_error_retry deadline h = cc h
classify_transport_error_retry (stalled x) h = cc h
classify_transport_error_retry engine_gone h = cc h
classify_transport_error_retry (config x) h = cc h
classify_transport_error_retry (runtime x) h = cc h
classify_transport_error_retry (other x) h = cc h
