-- ===== src/Core/Ranges/Edits.antt =====
-- Inserting and removing a range: the set afterwards, and its bytes.
use xde.Prelude.{ℕ, ◌<◌, ◌≡◌, not, ◌&&◌, ◌||◌, u64_mod}
use xde.Core.Ranges.{ByteRange, RangeSet, insert, remove, holds}
use xde.Core.Ranges.Normal.{covers, IsValid}
use xde.Core.Ranges.Insert.{insert-IsValid, covers-insert}
use xde.Core.Ranges.Remove.{remove-IsValid, covers-remove}

-- Inserting a range that ends below 2^64 keeps a valid set normalized and its counter exact, and
-- adds exactly the bytes of the range.
pub insert_lem :
    (s : RangeSet) (r : ByteRange)
    → IsValid s
    → r.end < u64_mod
    → IsValid (insert s r)
      × ((off : ℕ) → covers (insert s r).ranges off ≡ (holds r off || covers s.ranges off))
insert_lem s r v k = (insert-IsValid s r v k, λ off. covers-insert s r off v)

-- Removing a range keeps a valid set normalized and its counter exact, and takes away exactly the
-- bytes of the range.
pub remove_lem :
    (s : RangeSet) (r : ByteRange)
    → IsValid s
    → IsValid (remove s r)
      × ((off : ℕ) → covers (remove s r).ranges off ≡ (covers s.ranges off && not (holds r off)))
remove_lem s r v = (remove-IsValid s r v, λ off. covers-remove s r off v)
