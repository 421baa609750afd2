-- ===== src/Core/Segment/Ownership/Ends.antt =====
-- `abandon`, `finish_verified`, `defer` and `release_due`, and the ownership invariant of a plan.
use xde.Prelude.{
  ℕ, ◌≤◌, ◌<◌, ◌≡◌, refl, true, false, some, List, [], ◌∷◌, ◌++◌, arith, leb, ◌==◌, max, Bool-cases,
  inl, inr, u64_max, Option-cases,
}
use mathlib.Core.List.{append_assoc, append-nil}
use xde.Core.Ranges
use xde.Core.Ranges.{ByteRange, RangeSet, range, holds, is_empty}
use xde.Core.Ranges.Normal.{covers, IsValid}
use xde.Core.Ranges.Insert.{insert-IsValid, covers-insert}
use xde.Core.Units.{Float}
use xde.Core.SlotMap.{SlotMap, IsLawful}
use xde.Core.Segment.Plan.{Assignment, DeferredWork, Plan, defer, release_due, release_loop}
use xde.Core.Segment.Progress.{abandon, release_span}
use xde.Core.Segment.Release.{release_span-IsValid, release_span-covers}
use xde.Core.Segment.Owners.{parked, owns}
use xde.Core.Segment.Ownership.{View, Owned, Fits, nothing}
use xde.Core.Segment.Ownership.Assign.{drop_owner}
use xde.Core.Segment.Ownership.Bytes.{give_back, learn}
use xde.Core.Segment.Ownership.Defer.{park, unpark, Apart-middle}
use xde.Core.Segment.Progress.{finish_verified}
use xde.Core.Segment.Ownership.Steps.{view, IsOwned}
use xde.Core.Ranges.Canonical.{Normal-Bounded, insert_all-IsValid, covers-insert_all}

module _ ⦃fl : Float⦄ ⦃sm : SlotMap (Assignment fl.F)⦄ (law : IsLawful sm) where
  -- What a failed worker did not complete becomes claimable again.
  pub abandon-IsOwned :
      (total : ℕ) (p : Plan) (j : sm.Key) → IsOwned total p → IsOwned total (abandon p j).1
  unfolding abandon
  abandon-IsOwned total p j o = elim (Option-cases (sm.get p.assignments j)) [
    | inl n ↦ rw (n, abandon) o
    | inr (a, n) ↦
        let f : Fits total (some a) = rw n at (o.finite j) in
        let s = o.small in
        rw (n, abandon)
          (give_back total (holds a.span)
            (record (view p) { assignments = sm.remove p.assignments j })
            (release_span p.completed p.claimed a.span) (drop_owner law total (view p) j a o n)
            (release_span-IsValid p.completed p.claimed a.span o.claimed_valid)
            (λ off.
              release_span-covers p.completed p.claimed a.span off o.completed_valid o.claimed_valid
                (omega arith)))
  ]

  finish_plan : Plan → sm.Key → Assignment fl.F → Plan
  finish_plan p j a =
      let completed = Ranges.insert_all p.completed a.committed_ranges.ranges in
      let claimed = Ranges.insert_all p.claimed a.committed_ranges.ranges in
      record p {
        completed = completed;
        claimed = release_span completed claimed a.span;
        assignments = sm.remove p.assignments j;
      }

  finish_plan-IsOwned :
      (total : ℕ) (p : Plan) (j : sm.Key) (a : Assignment fl.F)
      → IsOwned total p
      → sm.get p.assignments j ≡ some a
      → IsValid a.committed_ranges
      → ((off : ℕ)
          → covers a.committed_ranges.ranges off ≡ true
          → (off < total) × (parked p.deferred off ≡ false))
      → IsOwned total (finish_plan p j a)
  unfolding finish_plan
  finish_plan-IsOwned total p j a o h v c =
      let rs = a.committed_ranges.ranges in
      let b = Normal-Bounded 0 rs v.normal in
      let d = Ranges.insert_all p.completed rs in
      let e = Ranges.insert_all p.claimed rs in
      let dv = insert_all-IsValid p.completed rs o.completed_valid b in
      let ev = insert_all-IsValid p.claimed rs o.claimed_valid b in
      let f : Fits total (some a) = rw h at (o.finite j) in
      let s = o.small in
      let w : View = record {
        completed = d;
        claimed = e;
        assignments = sm.remove p.assignments j;
        deferred = p.deferred;
      } in
      let l : Owned total (holds a.span) w =
        learn total (holds a.span) (covers rs)
          (record (view p) { assignments = sm.remove p.assignments j }) d e
          (drop_owner law total (view p) j a o h) dv ev
          (λ off. covers-insert_all p.completed rs off o.completed_valid b)
          (λ off. covers-insert_all p.claimed rs off o.claimed_valid b) (λ off x. (c off x).0)
          (λ off x. (c off x).1) in
      give_back total (holds a.span) w (release_span d e a.span) l
        (release_span-IsValid d e a.span ev)
        (λ off. release_span-covers d e a.span off dv ev (omega arith))

  -- A worker finishes: what it committed is completed, and the rest of its span is claimable again.
  pub finish_verified-IsOwned :
      (total : ℕ) (p : Plan) (j : sm.Key)
      → IsOwned total p
      → ((a : Assignment fl.F)
          → sm.get p.assignments j ≡ some a
          → IsValid a.committed_ranges
            × ((off : ℕ)
                → covers a.committed_ranges.ranges off ≡ true
                → (off < total) × (parked p.deferred off ≡ false)))
      → IsOwned total (finish_verified p j).1
  unfolding finish_verified finish_plan
  finish_verified-IsOwned total p j o c = elim (Option-cases (sm.get p.assignments j)) [
    | inl n ↦ rw (n, finish_verified) o
    | inr (a, n) ↦
        let (v, d) = c a n in rw (n, finish_verified) (finish_plan-IsOwned total p j a o n v d)
  ]

  -- A range that nobody works on and that is not completed is kept back.
  pub defer-IsOwned :
      (total : ℕ) (p : Plan) (r : ByteRange) (until attempt : ℕ)
      → IsOwned total p
      → r.end ≤ total
      → ((k : sm.Key) (off : ℕ) → holds r off ≡ true → owns p.assignments k off ≡ false)
      → ((off : ℕ) → holds r off ≡ true → covers p.completed.ranges off ≡ false)
      → ((off : ℕ) → holds r off ≡ true → parked p.deferred off ≡ false)
      → IsOwned total (defer p r until attempt)
  unfolding defer
  defer-IsOwned total p r until attempt o l unowned missing apart =
      let s = o.small in
      let e : (r.end == u64_max) ≡ false = ground arith in
      elim (Bool-cases (is_empty r)) [
        | inl z ↦ rw z o
        | inr z ↦
            rw (z, e)
              (park total (view p) (record { span = r; until = until; attempt = attempt })
                (Ranges.insert p.claimed r) o
                (insert-IsValid p.claimed r o.claimed_valid (omega arith)) (ground arith) l
                (λ off. covers-insert p.claimed r off o.claimed_valid) unowned missing apart)
      ]

  release_loop-IsOwned :
      (total now top : ℕ) (v : View) (c : RangeSet) (keep ds : List DeferredWork)
      → Owned total nothing (record v { claimed = c; deferred = keep ++ ds })
      → Owned total nothing (record v {
        claimed = (release_loop now ds c keep top).0;
        deferred = (release_loop now ds c keep top).1;
      })
  unfolding release_loop
  release_loop-IsOwned total now top v c keep [] o = rw append-nil at o
  release_loop-IsOwned total now top v c keep (d ∷ ds) o = elim (Bool-cases (leb d.until now)) [
    | inl due ↦
        let a = Apart-middle keep ds d o.apart in
        let e : (d.span.end == u64_max) ≡ false = (let s = a.2 in ground arith) in
        rw (due, release_loop, e)
          (release_loop-IsOwned total now (max top d.attempt) v (Ranges.remove c d.span) keep ds
            (unpark total (record v { claimed = c; deferred = keep ++ d ∷ ds }) keep ds d refl o))
    | inr wait ↦
        rw (wait, release_loop)
          (release_loop-IsOwned total now top v c (keep ++ d ∷ []) ds
            (rw (append_assoc keep (d ∷ []) ds) o))
  ]

  -- Deferred work whose backoff has elapsed can be claimed again.
  pub release_due-IsOwned :
      (total : ℕ) (p : Plan) (now : ℕ) → IsOwned total p → IsOwned total (release_due p now).0
  unfolding release_due
  release_due-IsOwned total p now o =
      release_loop-IsOwned total now 0 (view p) p.claimed [] p.deferred o
