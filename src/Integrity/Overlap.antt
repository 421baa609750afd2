-- ===== src/Integrity/Overlap.antt =====
-- crates/xde/src/integrity/overlap.rs: OverlapGuard, which compares the bytes at a boundary with those
-- that are there. Counters of 32 bits wrap around. The lock of this file is the one of
-- core/representation.rs.
pub mod Verdicts
pub mod Examples
use xde.Prelude.{
  ℕ, suc, ◌+◌, ◌-◌, ◌%◌, ◌^◌, Bool, true, false, Option, none, some, List, [], ◌∷◌, min, leb, ◌==◌,
  if◌then◌else◌, ◌||◌, length, take, wadd,
}
use xde.Core.Ranges.{ByteRange, range}
use xde.Http.Text.{same_text}

pub data OverlapVerdict : Type 0 where
  same : OverlapVerdict
  skipped : OverlapVerdict
  mismatch : ℕ → OverlapVerdict

pub record OverlapGuard : Type 0 where
  pub mismatches : ℕ
  pub distinct_connections_failed : ℕ
  pub degrade_threshold : ℕ

unfoldable pub guard_new : ℕ → OverlapGuard
guard_new degrade_threshold = record {
  mismatches = 0;
  distinct_connections_failed = 0;
  degrade_threshold = degrade_threshold;
}

-- `position(|(a, b)| a != b)` of the zipped slices.
unfoldable pub position_of_difference : List ℕ → List ℕ → Option ℕ
position_of_difference [] ys = none
position_of_difference (x ∷ xs) [] = none
position_of_difference (x ∷ xs) (y ∷ ys) =
    let rest = position_of_difference xs ys in
    if x == y then (elim rest [ none ↦ none | some i ↦ some (suc i) ]) else some 0

-- `unwrap_or(0)`.
unfoldable pub first_bad : List ℕ → List ℕ → ℕ
unfolding position_of_difference
first_bad xs ys = elim (position_of_difference xs ys) [ none ↦ 0 | some i ↦ i ]

unfoldable pub check : OverlapGuard → ℕ → List ℕ → List ℕ → OverlapVerdict × OverlapGuard
unfolding first_bad
check g at existing incoming =
    let n = min (length existing) (length incoming) in
    if n == 0
    then (skipped, g)
    else if same_text (take n existing) (take n incoming)
    then (same, g)
    else (
      mismatch (wadd at (first_bad (take n existing) (take n incoming))),
      record g { mismatches = suc g.mismatches % 2 ^ 32 },
    )

unfoldable pub note_connection_failed : OverlapGuard → OverlapGuard
note_connection_failed g = record g {
  distinct_connections_failed = suc g.distinct_connections_failed % 2 ^ 32;
}

unfoldable pub should_degrade : OverlapGuard → Bool
should_degrade g = leb g.degrade_threshold g.distinct_connections_failed

-- The prefix to read again for a range that starts at the given offset.
unfoldable pub resume_probe : ℕ → ℕ → Option ByteRange
resume_probe start overlap =
    if start == 0 || overlap == 0 then none else some (range (start - min overlap start) start)
