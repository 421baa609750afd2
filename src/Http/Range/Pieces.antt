-- ===== src/Http/Range/Pieces.antt =====
-- What the pieces of a text look like that `parse_content_range` reads: numbers, separators, the unit
-- and the complete length.
use xde.Prelude.{
  ℕ, ◌+◌, ◌-◌, ◌*◌, ◌≤◌, ◌≡◌, ◌≢◌, refl, sym, ap, ◌∙◌, ◌⊎◌, Option, none, some, [], ◌∷◌, ◌++◌,
  arith, leb, ◌==◌, ◌&&◌, u64_max, Bool-cases, Option-cases, inl, inr,
}
use xde.Http.Text.{
  Text, codes, is_digit, strip_prefix, split_once, same_text, same_text_sound, parse_digits,
  parse_u64,
}
use xde.Http.Range.{Checked, ok, err, strip_unit, parse_complete}
use xde.Http.Range.Grammar.{Digits, value}

-- A text is a 64-bit number in decimal, behind a plus sign or not.
pub record Denotes (s : Text) (n : ℕ) : Type 0 where
  pub digit : ℕ
  pub digits : Text
  pub spelled : (s ≡ digit ∷ digits) ⊎ (s ≡ b'+' ∷ digit ∷ digits)
  pub decimal : Digits (digit ∷ digits)
  pub denoted : value 0 (digit ∷ digits) ≡ n
  pub bound : n ≤ u64_max

parse_digits_sound :
    (m : ℕ) (s : Text) (n : ℕ)
    → m ≤ u64_max
    → parse_digits m s ≡ some n
    → Digits s × (value m s ≡ n) × (n ≤ u64_max)
unfolding parse_digits
parse_digits_sound m [] n l h = let e : m ≡ n = cc h in (tt, e, rw (sym e) l)
parse_digits_sound m (c ∷ s) n l h =
    let next = m * 10 + (c - b'0') in
    elim (Bool-cases (is_digit c && leb next u64_max)) [
      | inr e ↦ cc (rw e at h)
      | inl e ↦
          let rest = parse_digits_sound next s n (ground (arith, e)) (rw e at h) in
          ((ground (arith, e), rest.0), rest.1, rest.2)
    ]

digits-Denotes :
    (s : Text) (c : ℕ) (t : Text) (n : ℕ)
    → (s ≡ c ∷ t) ⊎ (s ≡ b'+' ∷ c ∷ t)
    → parse_digits 0 (c ∷ t) ≡ some n
    → Denotes s n
digits-Denotes s c t n e h =
    let r = parse_digits_sound 0 (c ∷ t) n (omega arith) h in
    record { digit = c; digits = t; spelled = e; decimal = r.0; denoted = r.1; bound = r.2 }

pub parse_u64-Denotes : (s : Text) (n : ℕ) → parse_u64 s ≡ some n → Denotes s n
unfolding parse_u64
parse_u64-Denotes [] n h = cc h
parse_u64-Denotes (c ∷ []) n h = elim (Bool-cases (c == b'+')) [
  | inl e ↦ cc (rw e at h)
  | inr e ↦ digits-Denotes (c ∷ []) c [] n (inl refl) (rw e at h)
]
parse_u64-Denotes (c ∷ d ∷ s) n h = elim (Bool-cases (c == b'+')) [
  | inl e ↦
      let plus : c ≡ b'+' = ground (arith, e) in
      digits-Denotes (c ∷ d ∷ s) d s n (inr (ap (λ x. x ∷ d ∷ s) plus)) (rw e at h)
  | inr e ↦ digits-Denotes (c ∷ d ∷ s) c (d ∷ s) n (inl refl) (rw e at h)
]

pub split_once_sound : (sep : ℕ) (s a b : Text) → split_once sep s ≡ some (a, b) → s ≡ a ++ sep ∷ b
unfolding split_once
split_once_sound sep [] a b h = cc h
split_once_sound sep (c ∷ s) a b h = elim (Bool-cases (c == sep)) [
  | inl e ↦
      let here : c ≡ sep = ground (arith, e) in
      let p : some ([], s) ≡ some (a, b) = rw e at h in
      let q : [] ≡ a = cc p in let r : s ≡ b = cc p in rw (here, sym q, r) refl
  | inr e ↦ elim (Option-cases (split_once sep s)) [
    | inl m ↦ cc (rw (e, m) at h)
    | inr (q, m) ↦
        let p : some (c ∷ q.0, q.1) ≡ some (a, b) = rw (e, m) at h in
        let x : c ∷ q.0 ≡ a = cc p in
        let y : q.1 ≡ b = cc p in rw (sym x, sym y) (ap (◌∷◌ c) (split_once_sound sep s q.0 q.1 m))
  ]
]

strip_prefix_sound : (p s r : Text) → strip_prefix p s ≡ some r → s ≡ p ++ r
unfolding strip_prefix
strip_prefix_sound [] s r h = cc h
strip_prefix_sound (x ∷ p) [] r h = cc h
strip_prefix_sound (x ∷ p) (c ∷ s) r h = elim (Bool-cases (x == c)) [
  | inr e ↦ cc (rw e at h)
  | inl e ↦
      let here : x ≡ c = ground (arith, e) in
      rw here (ap (◌∷◌ c) (strip_prefix_sound p s r (rw e at h)))
]

pub strip_unit_sound :
    (v r : Text) → strip_unit v ≡ some r → (v ≡ codes "bytes " ++ r) ⊎ (v ≡ codes "bytes=" ++ r)
unfolding strip_unit
strip_unit_sound v r h = elim (Option-cases (strip_prefix (codes "bytes ") v)) [
  | inr (q, m) ↦
      let p : some q ≡ some r = rw m at h in inl (strip_prefix_sound (codes "bytes ") v r (m ∙ p))
  | inl m ↦ inr (strip_prefix_sound (codes "bytes=") v r (rw m at h))
]

-- What a complete length is read from.
abbrev pub Complete : Text → Option ℕ → Type 0
Complete t none = t ≡ codes "*"
Complete t (some n) = Denotes t n × (n ≢ 0)

-- A property of what was read, where it was.
abbrev pub Holds : {A : Type 0} → (A → Type 0) → Checked A → Type 0
Holds P (ok c) = P c
Holds P (err e) = Unit {0}

pub Holds-map :
    {A : Type 0} (P Q : A → Type 0) (m : Checked A) → ((c : A) → P c → Q c) → Holds P m → Holds Q m
Holds-map P Q (ok c) f h = f c h
Holds-map P Q (err e) f h = tt

pub parse_complete-Complete : (t : Text) → Holds (Complete t) (parse_complete t)
unfolding parse_complete
parse_complete-Complete t = elim (Bool-cases (same_text t (codes "*"))) [
  | inl s ↦ rw (s, Holds) (same_text_sound t (codes "*") s)
  | inr s ↦ elim (Option-cases (parse_u64 t)) [
    | inl m ↦ rw (s, m, Holds) tt
    | inr (n, m) ↦ elim (Bool-cases (n == 0)) [
      | inl z ↦ rw (s, m, z, Holds) tt
      | inr z ↦ rw (s, m, z, Holds) (parse_u64-Denotes t n m, ground (arith, z))
    ]
  ]
]
