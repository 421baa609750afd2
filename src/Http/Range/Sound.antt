-- ===== src/Http/Range/Sound.antt =====
-- What `validate_against` accepts, and which range that is.
use xde.Prelude.{◌+◌, ◌-◌, ◌≤◌, ◌<◌, ◌≡◌, ◌↔◌, ◌≢◌, false, arith, u64_max}
use xde.Core.Ranges.{ByteRange, range}
use xde.Http.Range.{ContentRange, ok, len, as_range, beyond, validate_against}

-- validate_against accepts a header exactly if it starts where the request does, is not empty,
-- ends within the request and below 2^64 - 1, and lies inside the complete length, if it names
-- one.
pub validate_against_iff :
    (c : ContentRange) (r : ByteRange)
    → (validate_against c r ≡ ok tt) ↔ (
        (c.first ≡ r.start)
        × (c.first ≤ c.last)
        × (c.last ≢ u64_max)
        × (c.last + 1 ≤ r.end)
        × (beyond c.last c.complete_length ≡ false))
unfolding validate_against
validate_against_iff c r = ((λ h. ground arith), λ h. ground arith)

-- A header that was accepted for a request of 64-bit numbers names a range that is not empty,
-- starts where the request does and ends within it, and len is its length.
pub validate_against-range :
    (c : ContentRange) (r : ByteRange)
    → r.end ≤ u64_max
    → validate_against c r ≡ ok tt
    → (as_range c ≡ ok (range r.start (c.last + 1)))
      × (r.start < c.last + 1)
      × (c.last + 1 ≤ r.end)
      × (len c ≡ c.last + 1 - r.start)
unfolding validate_against as_range len
validate_against-range c r h e = (ground arith, ground arith, ground arith, ground arith)
