-- ===== src/Integrity/Overlap/Examples.antt =====
-- Two overlaps of six bytes.
use xde.Prelude.{◌≡◌, refl, some, arith, wadd}
use xde.Core.Ranges.{range}
use xde.Http.Text.{codes}
use xde.Integrity.Overlap.{
  OverlapGuard, mismatch, check, first_bad, position_of_difference, resume_probe, guard_new,
}
use xde.Integrity.Overlap.Verdicts.{Meaning, check-Meaning}

abbrev guard : OverlapGuard
guard = guard_new 2

mismatch_test : (check guard 100 (codes "abcdef") (codes "abcxyz")).0 ≡ mismatch 103
unfolding check first_bad position_of_difference wadd
mismatch_test = refl

probe_test : resume_probe 5 64 ≡ some (range 0 5)
unfolding resume_probe
probe_test = refl

check-Meaning_example :
    Meaning 100
      (codes "abcdef")
      (codes "abcxyz")
      (check guard 100 (codes "abcdef") (codes "abcxyz")).0
check-Meaning_example = check-Meaning guard 100 (codes "abcdef") (codes "abcxyz") (omega arith)
