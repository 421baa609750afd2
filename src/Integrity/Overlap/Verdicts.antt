-- ===== src/Integrity/Overlap/Verdicts.antt =====
-- What a verdict says about the bytes.
use xde.Prelude.{
  length-take, get_or-take, ℕ, zero, suc, ◌+◌, ◌-◌, ◌^◌, ◌≤◌, ◌<◌, ◌≡◌, ◌≢◌, refl, sym, ap, ◌∙◌,
  true, false, Option, none, some, List, [], ◌∷◌, min, ◌==◌, length, take, get_or, wadd, wadd-eq,
  arith, Bool-cases, inl, inr,
}
use xde.Http.Text.{same_text, same_text_complete}
use xde.Integrity.Overlap.{
  OverlapVerdict, same, skipped, mismatch, OverlapGuard, position_of_difference, first_bad, check,
}

-- The first difference of two lists of one length that are not the same.
abbrev FirstDifference : List ℕ → List ℕ → ℕ → Type 0
FirstDifference xs ys i =
    (i < length xs)
    × (get_or xs i 0 ≢ get_or ys i 0)
    × ((j : ℕ) → j < i → get_or xs j 0 ≡ get_or ys j 0)

abbrev Located : List ℕ → List ℕ → Option ℕ → Type 0
Located xs ys none = xs ≡ ys
Located xs ys (some i) = FirstDifference xs ys i

before_suc :
    (x y : ℕ) (xs ys : List ℕ) (i : ℕ)
    → x ≡ y
    → ((j : ℕ) → j < i → get_or xs j 0 ≡ get_or ys j 0)
    → (j : ℕ) → j < suc i
    → get_or (x ∷ xs) j 0 ≡ get_or (y ∷ ys) j 0
before_suc x y xs ys i e h zero l = e
before_suc x y xs ys i e h (suc j) l = h j (omega (arith, l))

Located-cons :
    (x y : ℕ) (xs ys : List ℕ) (m : Option ℕ)
    → x ≡ y
    → Located xs ys m
    → Located (x ∷ xs) (y ∷ ys) (elim m [ none ↦ none | some i ↦ some (suc i) ])
Located-cons x y xs ys none e h = rw (e, h) refl
Located-cons x y xs ys (some i) e h = (omega (arith, h.0), h.1, before_suc x y xs ys i e h.2)

position-Located :
    (xs ys : List ℕ) → length xs ≡ length ys → Located xs ys (position_of_difference xs ys)
unfolding position_of_difference
position-Located [] [] e = refl
position-Located [] (y ∷ ys) e = ground (arith, e)
position-Located (x ∷ xs) [] e = ground (arith, e)
position-Located (x ∷ xs) (y ∷ ys) e = elim (Bool-cases (x == y)) [
  | inl h ↦
      rw (h, Located)
        (Located-cons x y xs ys (position_of_difference xs ys) (ground (arith, h))
          (position-Located xs ys (omega (arith, e))))
  | inr h ↦ rw (h, Located) (omega arith, (λ k. ground (arith, h, k)), (λ j l. ground (arith, l)))
]

first_bad-FirstDifference :
    (xs ys : List ℕ)
    → length xs ≡ length ys
    → same_text xs ys ≡ false
    → FirstDifference xs ys (first_bad xs ys)
unfolding first_bad
first_bad-FirstDifference xs ys e h =
    found (position_of_difference xs ys) (position-Located xs ys e)
  where
    found :
        (m : Option ℕ) → Located xs ys m → FirstDifference xs ys (elim m [ none ↦ 0 | some i ↦ i ])
    found none k =
        let t : true ≡ false = sym (same_text_complete xs) ∙ (ap (λ zs. same_text xs zs) k ∙ h) in
        cc t
    found (some i) k = k

-- The first offset at which two byte strings differ that start at the given one, and both have.
abbrev pub DiffersAt : ℕ → List ℕ → List ℕ → ℕ → Type 0
DiffersAt at xs ys off =
    (at ≤ off)
    × (off - at < min (length xs) (length ys))
    × (get_or xs (off - at) 0 ≢ get_or ys (off - at) 0)
    × ((j : ℕ) → j < off - at → get_or xs j 0 ≡ get_or ys j 0)

taken-DiffersAt :
    (at n i : ℕ) (xs ys : List ℕ)
    → n ≤ length xs
    → n ≤ length ys
    → FirstDifference (take n xs) (take n ys) i
    → DiffersAt at xs ys (at + i)
taken-DiffersAt at n i xs ys l m d =
    let e : at + i - at ≡ i = omega arith in
    let s : i < n = omega (arith, d.0, length-take n xs l) in
    (
      omega arith,
      rw e (omega (arith, s, l, m)),
      rw e (λ k. d.1 (get_or-take n i xs 0 s ∙ (k ∙ sym (get_or-take n i ys 0 s)))),
      rw e (λ j p.
          let q : j < n = omega (arith, p, s) in
          sym (get_or-take n j xs 0 q) ∙ (d.2 j p ∙ get_or-take n j ys 0 q)),
    )

-- What a verdict means.
abbrev pub Meaning : ℕ → List ℕ → List ℕ → OverlapVerdict → Type 0
Meaning at xs ys skipped = min (length xs) (length ys) ≡ 0
Meaning at xs ys same =
    same_text (take (min (length xs) (length ys)) xs) (take (min (length xs) (length ys)) ys) ≡ true
Meaning at xs ys (mismatch off) = DiffersAt at xs ys off

-- The verdict on an overlap that ends below 2^64 is right: it is skipped when one side has no
-- bytes, the bytes that both sides have are the same, or the offset is the first at which they
-- differ.
pub check-Meaning :
    (g : OverlapGuard) (at : ℕ) (existing incoming : List ℕ)
    → at + length incoming < 2 ^ 64
    → Meaning at existing incoming (check g at existing incoming).0
unfolding check
check-Meaning g at existing incoming b =
    let n = min (length existing) (length incoming) in
    let xs = take n existing in
    let ys = take n incoming in
    elim (Bool-cases (n == 0)) [
      | inl e ↦ rw (e, Meaning) (ground (arith, e))
      | inr e ↦ elim (Bool-cases (same_text xs ys)) [
        | inl f ↦ rw (e, f, Meaning) f
        | inr f ↦
            let lx : length xs ≡ n = length-take n existing (omega arith) in
            let ly : length ys ≡ n = length-take n incoming (omega arith) in
            let d = first_bad-FirstDifference xs ys (lx ∙ sym ly) f in
            let w : wadd at (first_bad xs ys) ≡ at + first_bad xs ys =
              wadd-eq at (first_bad xs ys) (omega (arith, d.0, lx, b)) in
            rw (e, f, w, Meaning)
              (taken-DiffersAt at n (first_bad xs ys) existing incoming (omega arith) (omega arith)
                d)
      ]
    ]
