-- ===== src/Storage/Reorder/Bytes.antt =====
-- The bytes of an artifact from an offset, which chunks are compared with.
use xde.Prelude.{
  ℕ, zero, suc, ◌+◌, ◌-◌, ◌≡◌, refl, ap, ◌∙◌, List, [], ◌∷◌, ◌++◌, arith, length, drop,
}

-- The bytes of an artifact from an offset.
abbrev pub bytes_from : {B : Type 0} → (ℕ → B) → ℕ → ℕ → List B
bytes_from f o zero = []
bytes_from f o (suc n) = f o ∷ bytes_from f (suc o) n

pub bytes_from-append :
    {B : Type 0} (f : ℕ → B) (o m n p : ℕ)
    → p ≡ o + m
    → bytes_from f o m ++ bytes_from f p n ≡ bytes_from f o (m + n)
bytes_from-append f o zero n p h = ground arith
bytes_from-append f o (suc m) n p h =
    ap (◌∷◌ (f o)) (bytes_from-append f (suc o) m n p (omega arith))
    ∙ (let e : suc m + n ≡ suc (m + n) = omega arith in rw e refl)

pub drop-bytes_from :
    {B : Type 0} (f : ℕ → B) (o k n : ℕ) → drop k (bytes_from f o n) ≡ bytes_from f (o + k) (n - k)
drop-bytes_from f o zero n =
    let e : o + 0 ≡ o = omega arith in let z : n - 0 ≡ n = omega arith in rw (e, z) refl
drop-bytes_from f o (suc k) zero = let e : 0 - suc k ≡ 0 = omega arith in rw e refl
drop-bytes_from f o (suc k) (suc n) =
    let e : o + suc k ≡ suc o + k = omega arith in
    let z : suc n - suc k ≡ n - k = omega arith in rw (e, z) (drop-bytes_from f (suc o) k n)

pub length-bytes_from : {B : Type 0} (f : ℕ → B) (o n : ℕ) → length (bytes_from f o n) ≡ n
length-bytes_from f o zero = refl
length-bytes_from f o (suc n) = ap suc (length-bytes_from f (suc o) n)
