-- ===== src/Core/Representation/Lock.antt =====
-- What a lock remembers of the responses that it saw.
use xde.Prelude.{
  ℕ, ◌≡◌, refl, sym, ap, ◌∙◌, ◌↔◌, Bool, true, false, ◌&&◌, Option, none, some, List, [], ◌∷◌, ◌==◌,
  arith, Bool-cases, inl, inr,
}
use xde.Http.Text.{same_text_sound, same_text_complete, Text, same_text}
use xde.Core.Representation.{
  RepresentationLock, settle, Change, total_length_changed, conclude, validate,
}

-- The evidence of one response.
pub record Response : Type 0 where
  pub etag : Option Text
  pub last_modified : Option ℕ
  pub total_length : Option ℕ

abbrev pub verdict : RepresentationLock → Response → Option Change
verdict l r = (validate l r.etag r.last_modified r.total_length).0

abbrev pub lock_after : RepresentationLock → Response → RepresentationLock
lock_after l r = (validate l r.etag r.last_modified r.total_length).1

-- The lock after some responses, whether they were accepted or not.
abbrev pub after : RepresentationLock → List Response → RepresentationLock
after l [] = l
after l (r ∷ rs) = after (lock_after l r) rs

-- Two values that do not differ: one is missing, or they are the same.
abbrev pub compatible : {A : Type 0} → (A → A → Bool) → Option A → Option A → Bool
compatible same none b = true
compatible same (some a) none = true
compatible same (some a) (some b) = same a b

-- A field that is set stays as it is.
abbrev Kept : {A : Type 0} → Option A → Option A → Type 0
Kept none g = Unit {0}
Kept (some a) g = g ≡ some a

Kept-refl : {A : Type 0} (f : Option A) → Kept f f
Kept-refl none = tt
Kept-refl (some a) = refl

Kept-trans : {A : Type 0} (f g h : Option A) → Kept f g → Kept g h → Kept f h
Kept-trans none g h p q = tt
Kept-trans (some a) none h p q = cc p
Kept-trans (some a) (some b) h p q = q ∙ p

-- What one field does: it stays, and an accepted value does not differ from it before or after.
abbrev Settled : {A : Type 0} → (A → A → Bool) → Option A → Option A → Option (Option A) → Type 0
Settled same f b none = compatible same f b ≡ false
Settled same f b (some g) = Kept f g × Kept b g

module _ {A : Type 0} (same : A → A → Bool) (sound : (a b : A) → same a b ≡ true → a ≡ b) where
  settle-Settled : (f b : Option A) → Settled same f b (settle same f b)
  unfolding settle
  settle-Settled none b = (tt, Kept-refl b)
  settle-Settled (some a) none = (refl, tt)
  settle-Settled (some a) (some b) = elim (Bool-cases (same a b)) [
    | inl e ↦ rw (e, Settled) (refl, ap some (sound a b e))
    | inr e ↦ rw (e, Settled) e
  ]

same_number : (a b : ℕ) → (a == b) ≡ true → a ≡ b
same_number a b h = ground (arith, h)

number_same : (a : ℕ) → (a == a) ≡ true
number_same a = ground arith

-- A lock that keeps all fields that are set.
abbrev LockKept : RepresentationLock → RepresentationLock → Type 0
LockKept l k =
    Kept l.etag k.etag × Kept l.last_modified k.last_modified × Kept l.total_length k.total_length

abbrev Known : Response → RepresentationLock → Type 0
Known r k =
    Kept r.etag k.etag × Kept r.last_modified k.last_modified × Kept r.total_length k.total_length

-- The outcome for three fields: the lock keeps its fields, and one that accepts knows the response.
conclude-Kept :
    (l : RepresentationLock) (r : Response) (e : Option (Option Text)) (m t : Option (Option ℕ))
    → Settled same_text l.etag r.etag e
    → Settled (◌==◌) l.last_modified r.last_modified m
    → Settled (◌==◌) l.total_length r.total_length t
    → LockKept l (conclude l e m t).1 × ((conclude l e m t).0 ≡ none → Known r (conclude l e m t).1)
unfolding conclude
conclude-Kept l r none m t p q s =
    ((Kept-refl l.etag, Kept-refl l.last_modified, Kept-refl l.total_length), λ h. cc h)
conclude-Kept l r (some e) none t p q s =
    ((p.0, Kept-refl l.last_modified, Kept-refl l.total_length), λ h. cc h)
conclude-Kept l r (some e) (some m) none p q s = ((p.0, q.0, Kept-refl l.total_length), λ h. cc h)
conclude-Kept l r (some e) (some m) (some t) p q s = ((p.0, q.0, s.0), λ h. (p.1, q.1, s.1))

validate-Kept :
    (l : RepresentationLock) (r : Response)
    → LockKept l (lock_after l r) × (verdict l r ≡ none → Known r (lock_after l r))
unfolding validate
validate-Kept l r =
    conclude-Kept l r (settle same_text l.etag r.etag)
      (settle (◌==◌) l.last_modified r.last_modified) (settle (◌==◌) l.total_length r.total_length)
      (settle-Settled same_text same_text_sound l.etag r.etag)
      (settle-Settled (◌==◌) same_number l.last_modified r.last_modified)
      (settle-Settled (◌==◌) same_number l.total_length r.total_length)

LockKept-trans : (l k m : RepresentationLock) → LockKept l k → LockKept k m → LockKept l m
LockKept-trans l k m p q = (
  Kept-trans l.etag k.etag m.etag p.0 q.0,
  Kept-trans l.last_modified k.last_modified m.last_modified p.1 q.1,
  Kept-trans l.total_length k.total_length m.total_length p.2 q.2,
)

after-Kept : (l : RepresentationLock) (rs : List Response) → LockKept l (after l rs)
after-Kept l [] = (Kept-refl l.etag, Kept-refl l.last_modified, Kept-refl l.total_length)
after-Kept l (r ∷ rs) =
    LockKept-trans l (lock_after l r) (after (lock_after l r) rs) (validate-Kept l r).0
      (after-Kept (lock_after l r) rs)

Kept-compatible :
    {A : Type 0} (a b f g : Option A) (same : A → A → Bool)
    → ((x : A) → same x x ≡ true)
    → Kept a f
    → Kept f g
    → Kept b g
    → compatible same a b ≡ true
Kept-compatible none b f g same c p q s = refl
Kept-compatible (some x) none f g same c p q s = refl
Kept-compatible (some x) (some y) none g same c p q s = cc p
Kept-compatible (some x) (some y) (some z) g same c p q s =
    let e : x ≡ y = cc (p, q, s) in rw (sym e) (c x)

-- Two responses whose evidence does not differ.
abbrev pub agree : Response → Response → Bool
agree r s =
    compatible same_text r.etag s.etag
    && compatible (◌==◌) r.last_modified s.last_modified
    && compatible (◌==◌) r.total_length s.total_length

-- Any two responses that a lock accepts agree in tag, date and length where both have them,
-- whatever responses it was shown between them.
pub accepted-agree :
    (l : RepresentationLock) (r s : Response) (rs : List Response)
    → verdict l r ≡ none
    → verdict (after (lock_after l r) rs) s ≡ none
    → agree r s ≡ true
accepted-agree l r s rs h k =
    let first = lock_after l r in
    let before = after first rs in
    let last = lock_after before s in
    let known = (validate-Kept l r).1 h in
    let kept = LockKept-trans first before last (after-Kept first rs) (validate-Kept before s).0 in
    let new = (validate-Kept before s).1 k in
    let t =
      Kept-compatible r.etag s.etag first.etag last.etag same_text same_text_complete known.0 kept.0
        new.0 in
    let m =
      Kept-compatible r.last_modified s.last_modified first.last_modified last.last_modified (◌==◌)
        number_same known.1 kept.1 new.1 in
    let n =
      Kept-compatible r.total_length s.total_length first.total_length last.total_length (◌==◌)
        number_same known.2 kept.2 new.2 in
    rw (t, m, n) refl

Settled-compatible :
    {A : Type 0} (same : A → A → Bool)
    → ((x : A) → same x x ≡ true)
    → (f b g : Option A) → Settled same f b (some g)
    → compatible same f b ≡ true
Settled-compatible same c f b g p = Kept-compatible f b g g same c p.0 (Kept-refl g) p.1

-- What a lock has seen, as evidence.
abbrev pub seen : RepresentationLock → Response
seen l = record { etag = l.etag; last_modified = l.last_modified; total_length = l.total_length }

conclude_iff :
    (l : RepresentationLock) (r : Response) (e : Option (Option Text)) (m t : Option (Option ℕ))
    → Settled same_text l.etag r.etag e
    → Settled (◌==◌) l.last_modified r.last_modified m
    → Settled (◌==◌) l.total_length r.total_length t
    → ((conclude l e m t).0 ≡ none) ↔ (agree (seen l) r ≡ true)
unfolding conclude
conclude_iff l r none m t p q s = (λ h. cc h, λ h. cc (rw p at h))
conclude_iff l r (some e) none t p q s = (λ h. cc h, λ h. ground (arith, h, q))
conclude_iff l r (some e) (some m) none p q s = (λ h. cc h, λ h. ground (arith, h, s))
conclude_iff l r (some e) (some m) (some t) p q s = (
  λ h.
      rw
        (
          Settled-compatible same_text same_text_complete l.etag r.etag e p,
          Settled-compatible (◌==◌) number_same l.last_modified r.last_modified m q,
          Settled-compatible (◌==◌) number_same l.total_length r.total_length t s,
        )
        refl,
  λ h. refl,
)

-- A lock accepts a response exactly if it does not differ from what the lock has seen.
pub verdict_iff :
    (l : RepresentationLock) (r : Response) → (verdict l r ≡ none) ↔ (agree (seen l) r ≡ true)
unfolding validate
verdict_iff l r =
    conclude_iff l r (settle same_text l.etag r.etag)
      (settle (◌==◌) l.last_modified r.last_modified) (settle (◌==◌) l.total_length r.total_length)
      (settle-Settled same_text same_text_sound l.etag r.etag)
      (settle-Settled (◌==◌) same_number l.last_modified r.last_modified)
      (settle-Settled (◌==◌) same_number l.total_length r.total_length)

settle-differs :
    {A : Type 0} (same : A → A → Bool) (f b : Option A)
    → compatible same f b ≡ false
    → settle same f b ≡ none
unfolding settle
settle-differs same none b h = cc h
settle-differs same (some a) none h = cc h
settle-differs same (some a) (some b) h = rw h refl

settle-fits :
    {A : Type 0} (same : A → A → Bool) (f b : Option A)
    → compatible same f b ≡ true
    → (g : Option A) × (settle same f b ≡ some g)
unfolding settle
settle-fits same none b h = (b, refl)
settle-fits same (some a) none h = (some a, refl)
settle-fits same (some a) (some b) h = (some a, rw h refl)

-- A response whose date fits and whose length differs is rejected by a lock without a tag, and
-- leaves its tag in the lock.
pub validate-adopts :
    (l : RepresentationLock) (tag : Text) (date total : Option ℕ)
    → l.etag ≡ none
    → compatible (◌==◌) l.last_modified date ≡ true
    → compatible (◌==◌) l.total_length total ≡ false
    → ((validate l (some tag) date total).0 ≡ some total_length_changed)
      × ((validate l (some tag) date total).1.etag ≡ some tag)
unfolding validate conclude settle
validate-adopts l tag date total n h k =
    let m = settle-fits (◌==◌) l.last_modified date h in
    rw (n, m.1, settle-differs (◌==◌) l.total_length total k) (refl, refl)
