-- ===== src/Http/Response/Checks.antt =====
-- Which responses pass all checks.
use xde.Prelude.{
  ℕ, ◌+◌, ◌≤◌, ◌<◌, ◌≡◌, ◌≢◌, ◌↔◌, ◌⊎◌, refl, ap, ◌∙◌, Bool, true, false, not, ◌&&◌, Option, none,
  some, ◌==◌, arith, Bool-cases, inl, inr, u64_max,
}
use xde.Core.Ranges.{ByteRange}
use xde.Core.Disposition.{classify_status}
use xde.Core.Disposition.Statuses.{is_accept}
use xde.Core.Representation.{RepresentationLock, Change, validate}
use xde.Core.Representation.Lock.{agree, seen, verdict_iff}
use xde.Http.Text.{Text, codes, same_text, same_text_sound}
use xde.Http.Range.{ContentRange, Checked, ok, err, beyond, validate_against, parse_content_range}
use xde.Http.Range.Sound.{validate_against_iff}
use xde.Http.Response.{
  Request, Headers, ResponseError, Observed, observed_total, refused, within, validated,
  observe_range, is_compressed, observe_identity, check_observed, check_response,
}

-- An offset lies inside a complete length, if there is one.
abbrev pub Below : ℕ → Option ℕ → Type 0
Below last none = Unit {0}
Below last (some total) = last < total

-- The Content-Range of a response, and what it is for a request.
abbrev pub Fits : ByteRange → Option Text → Option ℕ → Type 0
Fits r value total =
    (text : Text) × (c : ContentRange) × (value ≡ some text)
    × (parse_content_range text ≡ ok c)
    × (c.first ≡ r.start)
    × (c.first ≤ c.last)
    × (c.last ≢ u64_max)
    × (c.last + 1 ≤ r.end)
    × Below c.last c.complete_length
    × (c.complete_length ≡ total)

beyond_iff : (last : ℕ) (o : Option ℕ) → (beyond last o ≡ false) ↔ Below last o
beyond_iff last none = (λ h. tt, λ h. refl)
beyond_iff last (some total) = (λ h. ground (arith, h), λ h. ground (arith, h))

abbrev Observes : ByteRange → Option Text → Observed → Type 0
Observes r value (refused e) = Unit {0}
Observes r value (observed_total total) = Fits r value total

within-Observes :
    (r : ByteRange) (text : Text) (c : ContentRange) (v : Checked (Unit {0}))
    → parse_content_range text ≡ ok c
    → validate_against c r ≡ v
    → Observes r (some text) (within c v)
unfolding within
within-Observes r text c (err e) p h = tt
within-Observes r text c (ok u) p h =
    let fits = (validate_against_iff c r).0 h in
    let inside = (beyond_iff c.last c.complete_length).0 fits.4 in
    (text, c, refl, p, fits.0, fits.1, fits.2, fits.3, inside, refl)

validated-Observes :
    (r : ByteRange) (text : Text) (m : Checked ContentRange)
    → parse_content_range text ≡ m
    → Observes r (some text) (validated r m)
unfolding validated
validated-Observes r text (err e) h = tt
validated-Observes r text (ok c) h = within-Observes r text c (validate_against c r) h refl

observe_range-Observes :
    (r : ByteRange) (value : Option Text) → Observes r value (observe_range r value)
unfolding observe_range
observe_range-Observes r none = tt
observe_range-Observes r (some text) = validated-Observes r text (parse_content_range text) refl

Fits-observe_range :
    (r : ByteRange) (value : Option Text) (total : Option ℕ)
    → Fits r value total
    → observe_range r value ≡ observed_total total
unfolding observe_range
Fits-observe_range r value total (text, c, v, p, first, ordered, small, ends, inside, t) =
    let passes : validate_against c r ≡ ok tt =
      (validate_against_iff c r).1
        (first, ordered, small, ends, (beyond_iff c.last c.complete_length).1 inside) in
    ap (observe_range r) v
    ∙ ap (validated r) p
    ∙ (unfold validated in ap (within c) passes)
    ∙ (unfold within in ap observed_total t)

-- The body is not compressed, or may be.
abbrev pub Uncompressed : Request → Headers → Type 0
Uncompressed q h =
    (q.allow_compressed ≡ true)
    ⊎ ((h.content_encoding ≡ none) ⊎ (h.content_encoding ≡ some (codes "identity")))

is_compressed_iff :
    (o : Option Text) → (is_compressed o ≡ false) ↔ ((o ≡ none) ⊎ (o ≡ some (codes "identity")))
unfolding is_compressed
is_compressed_iff none = (λ h. inl refl, λ h. refl)
is_compressed_iff (some t) = (
  λ h.
      let e : same_text t (codes "identity") ≡ true = ground (arith, h) in
      inr (ap some (same_text_sound t (codes "identity") e)),
  elim [
    | inl e ↦ cc e
    | inr e ↦
        let same : t ≡ codes "identity" = cc e in
        ap (λ x. not (same_text x (codes "identity"))) same
  ],
)

coding_iff :
    (q : Request) (h : Headers)
    → ((not q.allow_compressed && is_compressed h.content_encoding) ≡ false) ↔ Uncompressed q h
coding_iff q h = elim (Bool-cases q.allow_compressed) [
  | inl e ↦ (λ k. inl e, λ k. ground (arith, e))
  | inr e ↦ (
    λ k. inr ((is_compressed_iff h.content_encoding).0 (ground (arith, k, e))),
    elim [
      | inl f ↦ ground (arith, e, f)
      | inr f ↦ ground (arith, e, (is_compressed_iff h.content_encoding).1 f)
    ],
  )
]

-- What an accepted response satisfies.
abbrev pub Passed : Request → Headers → RepresentationLock → Type 0
Passed q h l =
    (h.status ≡ 206)
    × Uncompressed q h
    × (total : Option ℕ) × Fits q.wire_range h.content_range total
    × (agree (seen l)
          (record { etag = h.etag; last_modified = h.last_modified; total_length = total })
        ≡ true)

observe_identity_iff :
    (v : Option Change × RepresentationLock) → ((observe_identity v).0 ≡ none) ↔ (v.0 ≡ none)
unfolding observe_identity
observe_identity_iff v = cases v.0
  where
    cases :
        (m : Option Change)
        → ((elim m [ none ↦ none | some c ↦ some (ResponseError.representation_changed c) ]) ≡ none)
          ↔ (m ≡ none)
    cases none = (λ e. refl, λ e. refl)
    cases (some c) = (λ e. cc e, λ e. cc e)

check_observed-Passed :
    (q : Request) (h : Headers) (l : RepresentationLock) (o : Observed)
    → h.status ≡ 206
    → Observes q.wire_range h.content_range o
    → (check_observed q h l o).0 ≡ none
    → Passed q h l
unfolding check_observed
check_observed-Passed q h l (refused x) s o e = cc e
check_observed-Passed q h l (observed_total total) s o e =
    elim (Bool-cases (not q.allow_compressed && is_compressed h.content_encoding)) [
      | inl k ↦ cc (rw k at e)
      | inr k ↦
          let v = validate l h.etag h.last_modified total in
          (
            s,
            (coding_iff q h).0 k,
            total,
            o,
            (verdict_iff l _).0 ((observe_identity_iff v).0 (rw k at e)),
          )
    ]

Passed-check_observed :
    (q : Request) (h : Headers) (l : RepresentationLock) (total : Option ℕ)
    → Uncompressed q h
    → agree
        (seen l)
        (record { etag = h.etag; last_modified = h.last_modified; total_length = total })
      ≡ true
    → (check_observed q h l (observed_total total)).0 ≡ none
unfolding check_observed
Passed-check_observed q h l total u e =
    let v = validate l h.etag h.last_modified total in
    rw ((coding_iff q h).1 u) ((observe_identity_iff v).1 ((verdict_iff l _).1 e))

-- 206 is accepted for a request of a range.
partial-accepted :
    (s : ℕ) (r : ByteRange) (retry_after : Option ℕ) (is_resume : Bool)
    → s ≡ 206
    → is_accept (classify_status s (some r) retry_after is_resume) ≡ true
partial-accepted s r retry_after is_resume e =
    ap (λ n. is_accept (classify_status n (some r) retry_after is_resume)) e
    ∙ (unfold classify_status in refl)

-- A response passes the checks of a range request exactly if it is a 206, is not compressed or may
-- be, has a Content-Range that is read as a header which starts where the request does, is not empty,
-- ends within it and below 2^64 - 1 and lies inside the complete length, if it names one, and its
-- tag, date and complete length do not differ from what the lock has seen.
pub check_response_iff :
    (q : Request) (h : Headers) (l : RepresentationLock)
    → ((check_response q h l).0 ≡ none) ↔ Passed q h l
unfolding check_response
check_response_iff q h l = (
  λ e.
      elim (Bool-cases
        (is_accept (classify_status h.status (some q.wire_range) h.retry_after q.is_resume))) [
          | inr k ↦ cc (rw k at e)
          | inl k ↦ elim (Bool-cases (h.status == 206)) [
            | inr m ↦ cc (rw (k, m) at e)
            | inl m ↦
                check_observed-Passed q h l (observe_range q.wire_range h.content_range)
                  (ground (arith, m)) (observe_range-Observes q.wire_range h.content_range)
                  (rw (k, m) at e)
          ]
        ],
  λ (s, u, total, f, e).
      let k = partial-accepted h.status q.wire_range h.retry_after q.is_resume s in
      let m : (h.status == 206) ≡ true = ground (arith, s) in
      rw (k, m, Fits-observe_range q.wire_range h.content_range total f)
        (Passed-check_observed q h l total u e),
)
