-- ===== src/Core/Segment/Ownership/Frontier.antt =====
-- Where `plan_steal` cuts: `align_up` and the bytes that the victim keeps.
use xde.Prelude.{
  ℕ, ◌+◌, ◌-◌, ◌*◌, ◌/◌, ◌%◌, ◌≤◌, ◌<◌, ◌≡◌, Bool, true, false, ◌&&◌, none, some, arith, ltb, leb,
  min, max, Bool-cases, Option-cases, inl, inr, if◌then◌else◌, u64_mod, wadd, wsub, sat_add,
  sat_mul, wadd-eq, wsub-eq, clamp,
}
use native.Mathlib.Nat.{div-mul-le_self, lt-div-mul-add, mod-eq_of_lt}
use xde.Core.Units.{Float, nonzero, rate_floor}
use xde.Core.Ewma.{is_warm}
use xde.Core.SlotMap.{SlotMap}
use xde.Core.Segment.Plan.{Assignment, Plan, cursor, align_up, bytes_remaining}
use xde.Core.Segment.Claim.{cut_point}

-- Away from the end of the 64-bit numbers, align_up rounds up, and by less than the alignment.
pub align_up_bounds :
    (v align : ℕ)
    → 0 < align
    → v + align < u64_mod
    → (v ≤ align_up v align) × (align_up v align < v + align)
unfolding align_up
align_up_bounds v align h k = elim (Bool-cases (leb align 1)) [
  | inl e ↦ rw e (omega arith, omega arith)
  | inr e ↦
      let x = (v + align - 1) / align * align in
      let up : v + align - 1 < x + align = lt-div-mul-add h in
      let down : x ≤ v + align - 1 = div-mul-le_self (v + align - 1) align in
      let m : x % u64_mod ≡ x = mod-eq_of_lt (omega arith) in rw (e, m) (omega arith, omega arith)
]

-- The arithmetic of a cut: `front` is the frontier, `mp` the minimal piece, `keep` what the victim
-- keeps behind the frontier.
cut_lem :
    (span_start got end mp align keep cut : ℕ)
    → let front = sat_add span_start got in
      0 < align
      → 0 < mp
      → end + align < u64_mod
      → ltb (end - front) (sat_mul mp 2) ≡ false
      → keep ≤ wsub (end - front) mp
      → min (align_up (wadd front keep) align) (wsub end mp) ≡ cut
      → (span_start + got ≤ cut) × (cut + mp ≤ end)
cut_lem span_start got end mp align keep cut h j k l m e =
    let front = sat_add span_start got in
    let room : mp + mp ≤ end - front = ground arith in
    let exact : front ≡ span_start + got = omega arith in
    let s1 : wsub (end - front) mp ≡ end - front - mp = wsub-eq _ _ (omega arith) (omega arith) in
    let s2 : wsub end mp ≡ end - mp = wsub-eq _ _ (omega arith) (omega arith) in
    let s3 : wadd front keep ≡ front + keep = wadd-eq _ _ (omega arith) in
    let up = align_up_bounds (front + keep) align h (omega arith) in
    let c : min (align_up (front + keep) align) (end - mp) ≡ cut = rw (s2, s3) at e in
    (omega (arith, up.0), omega arith)

clamp-le : (v lo hi n : ℕ) → clamp v lo hi ≡ some n → n ≤ hi
unfolding clamp
clamp-le v lo hi n h = ground arith

guarded-eq : (b : Bool) (c cut : ℕ) → some (if b then some c else none) ≡ some (some cut) → c ≡ cut
guarded-eq true c cut e = cc
guarded-eq false c cut e = cc

module _ ⦃fl : Float⦄ ⦃sm : SlotMap (Assignment fl.F)⦄ where
  -- With positive alignment and minimal pieces, a tail is stolen behind everything that the victim has received or handed to the destination, and
  -- is at least as long as the smaller of the two minimal pieces, if the span ends far enough below
  -- 2^64 for the alignment.
  pub cut_point_frontier :
      (p : Plan) (est : fl.F) (a : Assignment fl.F) (cut : ℕ)
      → 0 < p.cfg.alignment
      → 0 < p.cfg.min_piece
      → 0 < p.cfg.tail_min_piece
      → a.span.end + p.cfg.alignment < u64_mod
      → cut_point p est a ≡ some (some cut)
      → (a.span.start + max a.wire_received a.destination_submitted ≤ cut)
        × (cut + min p.cfg.min_piece p.cfg.tail_min_piece ≤ a.span.end)
  unfolding cut_point
  cut_point_frontier p est a cut h i j k e =
      let got = max a.wire_received a.destination_submitted in
      let front = sat_add a.span.start got in
      let tail : Bool = elim (bytes_remaining p) [
        | none ↦ false
        | some r ↦ leb r p.cfg.tail_threshold
      ] in
      let mp : ℕ = if tail then p.cfg.tail_min_piece else p.cfg.min_piece in
      let rem = a.span.end - front in
      let v1 = fl.fmax (if is_warm a.rate then a.rate.mean else nonzero est) rate_floor in
      let share = fl.to_u64 (fl.mul (fl.of_u64 rem) (fl.div v1 (fl.add v1 (nonzero est)))) in
      let positive : 0 < mp = elim (Bool-cases tail) [ inl x ↦ rw x j | inr x ↦ rw x i ] in
      let least : min p.cfg.min_piece p.cfg.tail_min_piece ≤ mp = elim (Bool-cases tail) [
        | inl x ↦ rw x (omega arith)
        | inr x ↦ rw x (omega arith)
      ] in
      elim (Bool-cases (ltb rem (sat_mul mp 2))) [
        | inl x ↦ cc (rw (x, cut_point) at e)
        | inr x ↦ elim (Option-cases (clamp share mp (wsub rem mp))) [
          | inl y ↦ cc (rw (x, y, cut_point) at e)
          | inr (keep, y) ↦
              let c = min (align_up (wadd front keep) p.cfg.alignment) (wsub a.span.end mp) in
              let z : some (if ltb (cursor a) c && ltb c a.span.end then some c else none)
                  ≡ some (some cut) =
                rw (x, y, cut_point) at e in
              let q : c ≡ cut = guarded-eq (ltb (cursor a) c && ltb c a.span.end) c cut z in
              let r =
                cut_lem a.span.start got a.span.end mp p.cfg.alignment keep cut h positive k x
                  (clamp-le share mp (wsub rem mp) keep y) q in
              (r.0, omega (arith, r.1, least))
        ]
      ]
