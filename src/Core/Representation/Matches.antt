-- ===== src/Core/Representation/Matches.antt =====
-- Comparing two fingerprints of an artifact.
use xde.Prelude.{
  ℕ, ◌≡◌, refl, sym, ap, ◌∙◌, ◌↔◌, true, false, Option, none, some, [], ◌∷◌, ◌==◌, arith,
  Bool-cases, inl, inr,
}
use xde.Http.Text.{same_text_sound, same_text_complete, Text, codes, same_text}
use xde.Core.Representation.{
  JournaledFingerprint, ValidatorMatch, strong_match, starts_with, lengths_with_date, lengths_alone,
  dates_and_lengths, tags, matches,
}

same_text_comm : (a b : Text) → same_text a b ≡ same_text b a
same_text_comm [] [] = refl
same_text_comm [] (d ∷ b) = refl
same_text_comm (c ∷ a) [] = refl
same_text_comm (c ∷ a) (d ∷ b) =
    let e : (c == d) ≡ (d == c) = ground arith in rw (e, same_text_comm a b) refl

lengths_with_date_comm : (x y : Option ℕ) → lengths_with_date x y ≡ lengths_with_date y x
unfolding lengths_with_date
lengths_with_date_comm none none = refl
lengths_with_date_comm none (some y) = refl
lengths_with_date_comm (some x) none = refl
lengths_with_date_comm (some x) (some y) = let e : (x == y) ≡ (y == x) = ground arith in rw e refl

lengths_alone_comm : (x y : Option ℕ) → lengths_alone x y ≡ lengths_alone y x
unfolding lengths_alone
lengths_alone_comm none none = refl
lengths_alone_comm none (some y) = refl
lengths_alone_comm (some x) none = refl
lengths_alone_comm (some x) (some y) = let e : (x == y) ≡ (y == x) = ground arith in rw e refl

dates_and_lengths_comm :
    (a b x y : Option ℕ) → dates_and_lengths a b x y ≡ dates_and_lengths b a y x
unfolding dates_and_lengths
dates_and_lengths_comm none none x y = lengths_alone_comm x y
dates_and_lengths_comm none (some b) x y = lengths_alone_comm x y
dates_and_lengths_comm (some a) none x y = lengths_alone_comm x y
dates_and_lengths_comm (some a) (some b) x y =
    let e : (a == b) ≡ (b == a) = ground arith in
    rw (e, lengths_with_date_comm x y, lengths_alone_comm x y) refl

tags_comm : (a b : Option Text) (m : ValidatorMatch) → tags a b m ≡ tags b a m
unfolding tags
tags_comm none none m = refl
tags_comm none (some b) m = refl
tags_comm (some a) none m = refl
tags_comm (some a) (some b) m = elim (Bool-cases (same_text a b)) [
  | inl e ↦ let s : same_text b a ≡ true = same_text_comm b a ∙ e in rw (same_text_sound a b e) refl
  | inr e ↦ let s : same_text b a ≡ false = same_text_comm b a ∙ e in rw (e, s) refl
]

-- It does not matter which of two fingerprints is compared with the other.
pub matches_comm : (f g : JournaledFingerprint) → matches f g ≡ matches g f
unfolding matches
matches_comm f g =
    let e : (f.header_identity == g.header_identity) ≡ (g.header_identity == f.header_identity) =
      ground arith in
    let d =
      dates_and_lengths_comm f.last_modified_unix g.last_modified_unix f.content_length
        g.content_length in
    rw (e, d, tags_comm f.etag g.etag) refl

lengths_with_date-not_strong : (x y : Option ℕ) → ¬ (lengths_with_date x y ≡ strong_match)
unfolding lengths_with_date
lengths_with_date-not_strong none y h = cc h
lengths_with_date-not_strong (some x) none h = cc h
lengths_with_date-not_strong (some x) (some y) h = elim (Bool-cases (x == y)) [
  | inl e ↦ cc (rw e at h)
  | inr e ↦ cc (rw e at h)
]

lengths_alone-not_strong : (x y : Option ℕ) → ¬ (lengths_alone x y ≡ strong_match)
unfolding lengths_alone
lengths_alone-not_strong none y h = cc h
lengths_alone-not_strong (some x) none h = cc h
lengths_alone-not_strong (some x) (some y) h = elim (Bool-cases (x == y)) [
  | inl e ↦ cc (rw e at h)
  | inr e ↦ cc (rw e at h)
]

dates_and_lengths-not_strong : (a b x y : Option ℕ) → ¬ (dates_and_lengths a b x y ≡ strong_match)
unfolding dates_and_lengths
dates_and_lengths-not_strong none b x y h = lengths_alone-not_strong x y h
dates_and_lengths-not_strong (some a) none x y h = lengths_alone-not_strong x y h
dates_and_lengths-not_strong (some a) (some b) x y h = elim (Bool-cases (a == b)) [
  | inl e ↦ lengths_with_date-not_strong x y (rw e at h)
  | inr e ↦ lengths_alone-not_strong x y (rw e at h)
]

-- Two tags that are the same and not weak.
abbrev pub SameStrongTag : Option Text → Option Text → Type 0
SameStrongTag a b =
    (tag : Text) × (a ≡ some tag) × (b ≡ some tag) × (starts_with (codes "W/") tag ≡ false)

tags-strong :
    (a b : Option Text) (m : ValidatorMatch)
    → ¬ (m ≡ strong_match)
    → (tags a b m ≡ strong_match) ↔ SameStrongTag a b
unfolding tags
tags-strong none b m n = (λ h. absurd (n h), λ h. cc (h.1))
tags-strong (some a) none m n = (λ h. absurd (n h), λ h. cc (h.2))
tags-strong (some a) (some b) m n = (
  λ h. elim (Bool-cases (same_text a b)) [
    | inl e ↦ elim (Bool-cases (starts_with (codes "W/") a)) [
      | inl f ↦ cc (rw (e, f) at h)
      | inr f ↦ (a, refl, ap some (sym (same_text_sound a b e)), f)
    ]
    | inr e ↦ cc (rw e at h)
  ],
  λ h.
      let x : a ≡ h.0 = cc (h.1) in
      let y : b ≡ h.0 = cc (h.2) in rw (x, y, same_text_complete h.0, h.3) refl,
)

-- Two fingerprints match strongly exactly if the request headers are the same and both have the
-- same tag, which is not weak.
pub matches-strong :
    (f g : JournaledFingerprint)
    → (matches f g ≡ strong_match)
      ↔ ((f.header_identity ≡ g.header_identity) × SameStrongTag f.etag g.etag)
unfolding matches
matches-strong f g =
    let rest =
      dates_and_lengths f.last_modified_unix g.last_modified_unix f.content_length
        g.content_length in
    let strong = tags-strong f.etag g.etag rest (
      dates_and_lengths-not_strong f.last_modified_unix g.last_modified_unix f.content_length
        g.content_length) in
    elim (Bool-cases (f.header_identity == g.header_identity)) [
      | inl e ↦ (λ h. (ground (arith, e), strong.0 (rw e at h)), λ h. rw e (strong.1 h.1))
      | inr e ↦ (λ h. cc (rw e at h), λ h. ground (arith, e, h.0))
    ]
