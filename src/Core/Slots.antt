-- ===== src/Core/Slots.antt =====
-- A slot map to compute with: a list of slots that are never used again.
use xde.Prelude.{
  ℕ, zero, suc, ◌+◌, ◌≡◌, refl, sym, ap, Option, none, some, List, [], ◌∷◌, ◌==◌, arith,
  if◌then◌else◌,
}
use mathlib.Core.List.{Memᴰ}
use xde.Core.SlotMap.{SlotMap, IsLawful, overwrite}

module _ {V : Type 0} where
  abbrev slot : List (Option V) → ℕ → Option V
  slot [] k = none
  slot (x ∷ m) zero = x
  slot (x ∷ m) (suc k) = slot m k

  abbrev write : List (Option V) → ℕ → V → List (Option V)
  write [] k v = []
  write (x ∷ m) zero v = overwrite x v ∷ m
  write (x ∷ m) (suc k) v = x ∷ write m k v

  abbrev append : List (Option V) → V → ℕ × List (Option V)
  append [] v = (0, some v ∷ [])
  append (x ∷ m) v = (suc (append m v).0, x ∷ (append m v).1)

  abbrev clear_slot : List (Option V) → ℕ → List (Option V)
  clear_slot [] k = []
  clear_slot (x ∷ m) zero = none ∷ m
  clear_slot (x ∷ m) (suc k) = x ∷ clear_slot m k

  abbrev listed : ℕ → List (Option V) → List (ℕ × V)
  listed i [] = []
  listed i (none ∷ m) = listed (suc i) m
  listed i (some v ∷ m) = (i, v) ∷ listed (suc i) m

  abbrev pub slots : SlotMap V
  slots = record {
    Key = ℕ;
    same = λ j k. j == k;
    Store = List (Option V);
    empty = [];
    entries = listed 0;
    get = slot;
    put = write;
    push = append;
    remove = clear_slot;
  }

  slot-fresh : (m : List (Option V)) (v : V) → slot m (append m v).0 ≡ none
  slot-fresh [] v = refl
  slot-fresh (x ∷ m) v = slot-fresh m v

  slot-append :
      (m : List (Option V)) (v : V) (k : ℕ)
      → slot (append m v).1 k ≡ (if k == (append m v).0 then some v else slot m k)
  slot-append [] v zero = ground arith
  slot-append [] v (suc k) = ground arith
  slot-append (x ∷ m) v zero = ground arith
  slot-append (x ∷ m) v (suc k) = ground (arith, slot-append m v k)

  slot-write :
      (m : List (Option V)) (j k : ℕ) (v : V)
      → slot (write m j v) k ≡ (if k == j then overwrite (slot m k) v else slot m k)
  slot-write [] j k v = ground arith
  slot-write (x ∷ m) zero zero v = ground arith
  slot-write (x ∷ m) zero (suc k) v = ground arith
  slot-write (x ∷ m) (suc j) zero v = ground arith
  slot-write (x ∷ m) (suc j) (suc k) v = ground (arith, slot-write m j k v)

  slot-clear :
      (m : List (Option V)) (j k : ℕ)
      → slot (clear_slot m j) k ≡ (if k == j then none else slot m k)
  slot-clear [] j k = ground arith
  slot-clear (x ∷ m) zero zero = ground arith
  slot-clear (x ∷ m) zero (suc k) = ground arith
  slot-clear (x ∷ m) (suc j) zero = ground arith
  slot-clear (x ∷ m) (suc j) (suc k) = ground (arith, slot-clear m j k)

  to_listed :
      (i k j : ℕ) (v : V) (m : List (Option V))
      → j ≡ i + k
      → slot m k ≡ some v
      → Memᴰ (j, v) (listed i m)
  to_listed i k j v [] q h = cc
  to_listed i zero j v (none ∷ m) q h = cc
  to_listed i zero j v (some w ∷ m) q h =
      let a : v ≡ w = cc in let b : j ≡ i = omega arith in Memᴰ.head (rw (a, b) refl)
  to_listed i (suc k) j v (none ∷ m) q h = to_listed (suc i) k j v m (omega arith) h
  to_listed i (suc k) j v (some w ∷ m) q h = Memᴰ.tail (to_listed (suc i) k j v m (omega arith) h)

  of_listed :
      (i k : ℕ) (v : V) (m : List (Option V))
      → Memᴰ (k, v) (listed i m)
      → (n : ℕ) × (k ≡ i + n) × (slot m n ≡ some v)
  of_listed i k v [] h = elim h [ ]
  of_listed i k v (none ∷ m) h =
      let (n, e, s) = of_listed (suc i) k v m h in (suc n, omega arith, s)
  of_listed i k v (some w ∷ m) (Memᴰ.head e) =
      (0, (let q = ap (λ x. x.0) e in omega arith), ap some (sym (ap (λ x. x.1) e)))
  of_listed i k v (some w ∷ m) (Memᴰ.tail h) =
      let (n, e, s) = of_listed (suc i) k v m h in (suc n, omega arith, s)

  pub slots-IsLawful : IsLawful slots
  slots-IsLawful = record {
    same_iff = λ j k. ((λ h. ground arith), (λ h. ground arith));
    get-empty = λ k. refl;
    get-fresh = slot-fresh;
    get-push = slot-append;
    get-put = slot-write;
    get-remove = slot-clear;
    mem-entries = λ m k v. (
      (λ h. let (n, e, s) = of_listed 0 k v m h in let q : k ≡ n = omega arith in rw q s),
      to_listed 0 k k v m (omega arith),
    );
  }
