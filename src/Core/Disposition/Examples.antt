-- ===== src/Core/Disposition/Examples.antt =====
-- Classifications at concrete statuses and errors, and the theorems applied there.
use xde.Prelude.{ℕ, ◌≡◌, ◌↔◌, ◌⊎◌, refl, true, false, Option, none, some}
use xde.Core.Ranges.{ByteRange, range}
use xde.Core.Disposition.{classify_status, full_body_for_range_request, recheck_length, is_some}
use xde.Core.Disposition.Errors.{Error, transport, io, broken_pipe, classify_transport_error}
use xde.Core.Disposition.Statuses.{is_retry, is_accept, classify_status_accept}

abbrev asked : Option ByteRange
asked = some (range 100 200)

resume_test : classify_status 200 asked none true ≡ full_body_for_range_request
unfolding classify_status
resume_test = refl

recheck_test : classify_status 416 none none false ≡ recheck_length
unfolding classify_status
recheck_test = refl

abbrev full_status : ℕ
full_status = 200

abbrev busy_status : ℕ
busy_status = 503

classify_status_accept_example : (is_accept (classify_status 200 asked none true) ≡ true) ↔ (
    (full_status ≡ 204)
    ⊎ (full_status ≡ 206)
    ⊎ ((full_status ≡ 200) × ((is_some asked ≡ false) ⊎ (true ≡ false))))
classify_status_accept_example = classify_status_accept 200 asked none true

abbrev dropped : Error
dropped = transport (io broken_pipe)

dropped_test : is_retry (classify_transport_error dropped) ≡ true
unfolding classify_transport_error
dropped_test = refl
