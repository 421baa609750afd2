-- ===== src/Prelude/Lists.antt =====
-- Lists measured and indexed by native numbers, and the slice operations of `Vec` that the
-- program uses: `partition_point`, indexing, sub-slices, `splice`.
use Prim.Native.Nat.{ℕ, zero, suc, ◌+◌, ◌-◌, ◌≤◌, ◌<◌}
use mathlib.Core.Path.{◌≡◌, refl, ap}
use mathlib.Core.Logic.{inl, inr}
use mathlib.Core.Bool.{Bool, true, false}
use mathlib.Core.List.{List, [], ◌∷◌, ◌++◌}
use mathlib.Core.Option.{Option, none, some}
use native.Mathlib.Omega.{arith}
use xde.Prelude.Tests.{if◌then◌else◌, Bool-cases}

module _ {ℓ} {A : Type ℓ} where
  abbrev pub length : List A → ℕ
  length [] = 0
  length (x ∷ xs) = suc (length xs)

  abbrev pub is_nil : List A → Bool
  is_nil [] = true
  is_nil (x ∷ xs) = false

  abbrev pub get_elem? : List A → ℕ → Option A
  get_elem? [] i = none
  get_elem? (x ∷ xs) zero = some x
  get_elem? (x ∷ xs) (suc i) = get_elem? xs i

  abbrev pub get_or : List A → ℕ → A → A
  get_or [] i d = d
  get_or (x ∷ xs) zero d = x
  get_or (x ∷ xs) (suc i) d = get_or xs i d

  abbrev pub take : ℕ → List A → List A
  take zero xs = []
  take (suc n) [] = []
  take (suc n) (x ∷ xs) = x ∷ take n xs

  abbrev pub drop : ℕ → List A → List A
  drop zero xs = xs
  drop (suc n) [] = []
  drop (suc n) (x ∷ xs) = drop n xs

  -- `slice[lo..hi]`, and `vec.splice(lo..hi, with)`.
  abbrev pub slice : ℕ → ℕ → List A → List A
  slice zero hi xs = take hi xs
  slice (suc lo) hi [] = []
  slice (suc lo) zero (x ∷ xs) = []
  slice (suc lo) (suc hi) (x ∷ xs) = slice lo hi xs

  abbrev pub splice : ℕ → ℕ → List A → List A → List A
  splice lo hi with xs = take lo xs ++ (with ++ drop hi xs)

  -- `partition_point` of a slice that the test partitions: the length of its longest prefix that
  -- passes.
  abbrev pub partition_point : (A → Bool) → List A → ℕ
  partition_point p [] = 0
  partition_point p (x ∷ xs) = if p x then suc (partition_point p xs) else 0

  abbrev pub all : (A → Bool) → List A → Bool
  all p [] = true
  all p (x ∷ xs) = if p x then all p xs else false

  abbrev pub any : (A → Bool) → List A → Bool
  any p [] = false
  any p (x ∷ xs) = if p x then true else any p xs

  pub length-append : (xs ys : List A) → length (xs ++ ys) ≡ length xs + length ys
  length-append [] ys = omega arith
  length-append (x ∷ xs) ys = omega (arith, length-append xs ys)

  pub partition_point-le-length : (p : A → Bool) (xs : List A) → partition_point p xs ≤ length xs
  partition_point-le-length p [] = omega arith
  partition_point-le-length p (x ∷ xs) = ground (arith, partition_point-le-length p xs)

  pub any-append :
      (p : A → Bool) (xs ys : List A) → any p (xs ++ ys) ≡ (if any p xs then true else any p ys)
  any-append p [] ys = refl
  any-append p (x ∷ xs) ys = ground (arith, any-append p xs ys)

  -- The element at the partition point, if there is one, fails the test.
  pub partition_point-stops :
      (p : A → Bool) (xs : List A) (x : A)
      → get_elem? xs (partition_point p xs) ≡ some x
      → p x ≡ false
  partition_point-stops p [] x h = cc
  partition_point-stops p (y ∷ ys) x h = elim (Bool-cases (p y)) [
    | inl e ↦ partition_point-stops p ys x (rw e at h)
    | inr e ↦ let q : some y ≡ some x = rw e at h in cc
  ]

  -- A sum over the elements.
  abbrev pub total : (A → ℕ) → List A → ℕ
  total f [] = 0
  total f (x ∷ xs) = f x + total f xs

  pub total-middle :
      (f : A → ℕ) (xs ys : List A) (x : A) → total f (xs ++ x ∷ ys) ≡ f x + total f (xs ++ ys)
  total-middle f [] ys x = refl
  total-middle f (y ∷ xs) ys x = omega (arith, total-middle f xs ys x)

  pub length-take : (n : ℕ) (xs : List A) → n ≤ length xs → length (take n xs) ≡ n
  length-take zero xs l = refl
  length-take (suc n) [] l = absurd (omega (arith, l))
  length-take (suc n) (x ∷ xs) l = omega (arith, length-take n xs)

  pub length-drop : (n : ℕ) (xs : List A) → length (drop n xs) ≡ length xs - n
  length-drop zero xs = omega arith
  length-drop (suc n) [] = omega arith
  length-drop (suc n) (x ∷ xs) = omega (arith, length-drop n xs)

  pub take-append-drop : (n : ℕ) (xs : List A) → take n xs ++ drop n xs ≡ xs
  take-append-drop zero xs = refl
  take-append-drop (suc n) [] = refl
  take-append-drop (suc n) (x ∷ xs) = ap (λ ys. x ∷ ys) (take-append-drop n xs)

  pub get_or-take : (n i : ℕ) (xs : List A) (d : A) → i < n → get_or (take n xs) i d ≡ get_or xs i d
  get_or-take zero i xs d l = absurd (omega (arith, l))
  get_or-take (suc n) i [] d l = refl
  get_or-take (suc n) zero (x ∷ xs) d l = refl
  get_or-take (suc n) (suc i) (x ∷ xs) d l = get_or-take n i xs d (omega (arith, l))
