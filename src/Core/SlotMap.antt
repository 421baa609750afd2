-- ===== src/Core/SlotMap.antt =====
-- The `slotmap` crate's `SlotMap`, which the engine uses and does not implement: its operations and
-- the behaviour that its documentation states.
use xde.Prelude.{◌≡◌, ◌↔◌, Bool, true, Option, none, some, List, if◌then◌else◌}
use mathlib.Core.List.{Memᴰ}

-- `entries` is what `iter` visits, in its order; `put` is a write through `get_mut`.
pub record SlotMap (V : Type 0) : Type 1 where
  pub Key : Type 0
  pub same : Key → Key → Bool
  pub Store : Type 0
  pub empty : Store
  pub entries : Store → List (Key × V)
  pub get : Store → Key → Option V
  pub put : Store → Key → V → Store
  pub push : Store → V → Key × Store
  pub remove : Store → Key → Store

-- Writing into an entry that is there.
abbrev pub overwrite : {V : Type 0} → Option V → V → Option V
overwrite none v = none
overwrite (some _) v = some v

pub record IsLawful {V : Type 0} (sm : SlotMap V) : Type 0 where
  pub same_iff : (j k : sm.Key) → (sm.same j k ≡ true) ↔ (j ≡ k)
  pub get-empty : (k : sm.Key) → sm.get sm.empty k ≡ none
  -- A key that `push` returns is not in use.
  pub get-fresh : (m : sm.Store) (v : V) → sm.get m (sm.push m v).0 ≡ none
  pub get-push :
      (m : sm.Store) (v : V) (k : sm.Key)
      → sm.get (sm.push m v).1 k ≡ (if sm.same k (sm.push m v).0 then some v else sm.get m k)
  pub get-put :
      (m : sm.Store) (j k : sm.Key) (v : V)
      → sm.get (sm.put m j v) k ≡ (if sm.same k j then overwrite (sm.get m k) v else sm.get m k)
  pub get-remove :
      (m : sm.Store) (j k : sm.Key)
      → sm.get (sm.remove m j) k ≡ (if sm.same k j then none else sm.get m k)
  -- `iter` visits exactly the entries that `get` finds.
  pub mem-entries :
      (m : sm.Store) (k : sm.Key) (v : V) → Memᴰ (k, v) (sm.entries m) ↔ (sm.get m k ≡ some v)
