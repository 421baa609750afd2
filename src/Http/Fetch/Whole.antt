-- ===== src/Http/Fetch/Whole.antt =====
-- What is fetched of a whole body.
use mathlib.Core.List.{append_assoc, append-nil}
use mathlib.Core.Path.{subst}
use xde.Prelude.{
  ℕ, ◌+◌, ◌-◌, ◌≤◌, ◌<◌, ◌^◌, ◌≡◌, refl, sym, ap, ◌∙◌, ◌⊎◌, inl, inr, Bool, true, false, List, [],
  ◌∷◌, ◌++◌, ltb, ◌==◌, if◌then◌else◌, length, arith, Bool-cases, length-append, wsub-eq,
}
use xde.Core.Ranges.{ByteRange, len}
use xde.Http.Fetch.{
  RangeFetch, Progress, Delivery, delivered, oversized_body, sink_failed, deliver_range_bytes,
  Fetched, fully_consumed, intentionally_truncated, oversized, premature_eof, failed, conclude,
  receive, fetch_body,
}
use xde.Http.Fetch.Rounds.{
  got, InPlace, Prefix, IsProper, Base, Delivered, deliver-exact, deliver-full,
}

-- All bytes of the frames.
abbrev pub joined : List (List ℕ) → List ℕ
joined [] = []
joined (b ∷ bs) = b ++ joined bs

-- What an outcome says about the body. If it was consumed, the chunks hold exactly the bytes of the
-- range, which begin the body; if it was truncated, they hold a prefix of the body inside the
-- range; otherwise the body was longer or shorter than the range, or the sink failed.
abbrev pub Outcome : RangeFetch → List ℕ → Fetched → Type 0
Outcome f body (fully_consumed q) =
    InPlace f.wire_range.start q.chunks
    × Prefix (got q.chunks) body
    × (f.wire_range.start + length (got q.chunks) ≡ f.wire_range.end)
Outcome f body (intentionally_truncated q) =
    InPlace f.wire_range.start q.chunks
    × Prefix (got q.chunks) body
    × (f.wire_range.start + length (got q.chunks) ≤ f.wire_range.end)
Outcome f body (oversized received expected) = f.wire_range.end < f.wire_range.start + length body
Outcome f body (premature_eof received expected) =
    f.wire_range.start + length body < f.wire_range.end
Outcome f body failed = Unit {0}

-- The state between frames: everything before was taken, or the end of the range is reached.
abbrev Between : RangeFetch → List ℕ → Progress → Type 0
Between f seen p =
    Base f p
    × Prefix (got p.chunks) seen
    × (p.truncated ≡ false)
    × ((got p.chunks ≡ seen) ⊎ (p.offset ≡ f.wire_range.end))

len-eq : (r : ByteRange) → r.start ≤ r.end → r.end < 2 ^ 64 → len r ≡ r.end - r.start
unfolding len
len-eq r l m = wsub-eq r.end r.start l m

conclude-Outcome :
    (f : RangeFetch) (seen : List ℕ) (p : Progress)
    → f.wire_range.start ≤ f.wire_range.end
    → f.wire_range.end < 2 ^ 64
    → Between f seen p
    → Outcome f seen (conclude f p)
unfolding conclude
conclude-Outcome f seen p l m b =
    let size = len-eq f.wire_range l m in
    elim (Bool-cases (p.received == len f.wire_range)) [
      | inl e ↦ rw (b.2, e, Outcome) (b.0.0, b.1, ground (arith, e, size, b.0.1, b.0.2, l))
      | inr e ↦ elim (Bool-cases (ltb (len f.wire_range) p.received)) [
        | inl k ↦ rw (b.2, e, k, Outcome) (ground (arith, k, size, b.0.1, b.0.2, b.0.3, l))
        | inr k ↦ rw (b.2, e, k, Outcome) (short b.3 (ground (arith, e, k, size, b.0.2, l)))
      ]
    ]
  where
    short :
        (got p.chunks ≡ seen) ⊎ (p.offset ≡ f.wire_range.end)
        → f.wire_range.start + length (got p.chunks) < f.wire_range.end
        → f.wire_range.start + length seen < f.wire_range.end
    short (inl h) k = let s = ap (λ ys. length ys) h in omega (arith, k, s)
    short (inr h) k = absurd (omega (arith, k, h, b.0.1))

conclude-truncated :
    (f : RangeFetch) (body : List ℕ) (p : Progress)
    → p.truncated ≡ true
    → Base f p
    → Prefix (got p.chunks) body
    → Outcome f body (conclude f p)
unfolding conclude
conclude-truncated f body p t b h = rw (t, Outcome) (b.0, h, omega (arith, b.1, b.3))

Prefix-append : (xs ys zs : List ℕ) → Prefix xs ys → Prefix xs (ys ++ zs)
Prefix-append xs ys zs h = (h.0 ++ zs, ap (λ v. v ++ zs) h.1 ∙ append_assoc xs h.0 zs)

if-Outcome :
    (f : RangeFetch) (body : List ℕ) (b : Bool) (x y : Fetched)
    → (b ≡ true → Outcome f body x)
    → (b ≡ false → Outcome f body y)
    → Outcome f body (if b then x else y)
if-Outcome f body true x y h k = h refl
if-Outcome f body false x y h k = k refl

-- After a frame, and before the rest of the body.
after-frame :
    (f : RangeFetch) (seen rest : List ℕ) (frames : List (List ℕ)) (d : Delivery)
    → f.wire_range.start ≤ f.wire_range.end
    → f.wire_range.end < 2 ^ 64
    → Delivered f seen d
    → ((q : Progress) → Between f seen q → Outcome f (seen ++ rest) (receive f frames q))
    → Outcome f (seen ++ rest) (elim d [
      | delivered q ↦ if q.truncated then conclude f q else receive f frames q
      | oversized_body received expected ↦ oversized received expected
      | sink_failed ↦ failed
    ])
after-frame f seen rest frames (delivered q) l m h go =
    if-Outcome f (seen ++ rest) q.truncated (conclude f q) (receive f frames q)
      (λ t.
        conclude-truncated f (seen ++ rest) q t h.0 (Prefix-append (got q.chunks) seen rest h.1))
      (λ t. go q (h.0, h.1, t, settled h.2 t))
  where
    settled :
        (q.truncated ≡ true) ⊎ ((got q.chunks ≡ seen) ⊎ (q.offset ≡ f.wire_range.end))
        → q.truncated ≡ false
        → (got q.chunks ≡ seen) ⊎ (q.offset ≡ f.wire_range.end)
    settled (inl k) t = cc (k, t)
    settled (inr k) t = k
after-frame f seen rest frames (oversized_body received expected) l m h go =
    omega (arith, h, length-append seen rest)
after-frame f seen rest frames sink_failed l m h go = tt

deliver-Delivered :
    (f : RangeFetch) (bytes : List ℕ) (p : Progress) (seen : List ℕ)
    → IsProper f
    → Between f seen p
    → Delivered f (seen ++ bytes) (deliver_range_bytes f bytes p)
deliver-Delivered f bytes p seen i b = either b.3
  where
    either :
        (got p.chunks ≡ seen) ⊎ (p.offset ≡ f.wire_range.end)
        → Delivered f (seen ++ bytes) (deliver_range_bytes f bytes p)
    either (inl h) = deliver-exact f bytes p seen i b.0 h
    either (inr h) = deliver-full f bytes p seen b.0 b.1 h

receive-Outcome :
    (f : RangeFetch) (frames : List (List ℕ)) (p : Progress) (seen : List ℕ)
    → IsProper f
    → f.wire_range.end < 2 ^ 64
    → Between f seen p
    → Outcome f (seen ++ joined frames) (receive f frames p)
unfolding receive
receive-Outcome f [] p seen i m b =
    subst (λ v. Outcome f v (conclude f p)) (sym (append-nil seen))
      (conclude-Outcome f seen p i.0 m b)
receive-Outcome f (bytes ∷ frames) p seen i m b =
    subst (λ v. Outcome f v (receive f (bytes ∷ frames) p))
      (append_assoc seen bytes (joined frames))
      (after-frame f (seen ++ bytes) (joined frames) frames (deliver_range_bytes f bytes p) i.0 m
        (deliver-Delivered f bytes p seen i b)
        (λ q h. receive-Outcome f frames q (seen ++ bytes) i m h))

-- For a range in order that ends below 2^64, a positive memory limit and a positive chunk size,
-- fetching a body ends as one of these: consumed, with chunks in place that hold exactly as many
-- bytes as the range and begin the body; truncated, with chunks in place that hold a prefix of the
-- body inside the range; rejected as oversized, and it is longer than the range; rejected as
-- premature, and it is shorter; or failed by the sink.
pub fetch_body-Outcome :
    (f : RangeFetch) (frames : List (List ℕ))
    → IsProper f
    → f.wire_range.end < 2 ^ 64
    → Outcome f (joined frames) (fetch_body f frames)
unfolding fetch_body
fetch_body-Outcome f frames i m =
    receive-Outcome f frames _ [] i m ((tt, omega arith, refl, i.0), (([], refl)), refl, inl refl)
