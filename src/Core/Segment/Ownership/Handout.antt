-- ===== src/Core/Segment/Ownership/Handout.antt =====
-- `claim_with` and the ownership invariant, on every branch for a source that serves ranges.
use xde.Prelude.{
  ℕ, suc, ◌<◌, ◌≡◌, refl, sym, ◌∙◌, ap, Bool, true, false, Option, none, some, List, [], ◌∷◌, arith,
  Bool-cases, inl, inr, ◌⊎◌, if◌then◌else◌, Option-cases, ◌>>=◌,
}
use mathlib.Core.List.{Memᴰ}
use xde.Core.Ranges.{ByteRange}
use xde.Core.Units.{Float}
use xde.Core.SlotMap.{SlotMap, IsLawful}
use xde.Core.Segment.Plan.{Assignment, Claim, complete, Plan, cursor}
use xde.Core.Segment.Claim.{
  found, next_claimable_gap, slowest, slower, eligible, cut_point, plan_steal, steal_found,
  claim_stolen, claim_piece, claim_ranged, claim_for, claim_with, take_len,
}
use xde.Core.Segment.Ownership.Claims.{gap_loop-gap, claim_gap-IsOwned, steal_at-IsOwned}
use xde.Core.Segment.Ownership.Steps.{IsOwned}

found-some : (m : Option (Option ByteRange)) (g : ByteRange) → found m ≡ some g → m ≡ some (some g)
found-some none g h = cc h
found-some (some o) g h = ap some h

module _ ⦃fl : Float⦄ ⦃sm : SlotMap (Assignment fl.F)⦄ where
  -- The victim is cut strictly between its cursor and its end.
  cut_point_bounds :
      (p : Plan) (est : fl.F) (a : Assignment fl.F) (cut : ℕ)
      → cut_point p est a ≡ some (some cut)
      → (cursor a < cut) × (cut < a.span.end)
  unfolding cut_point
  cut_point_bounds p est a cut h = ground arith

  slower-cases :
      (est : fl.F) (best : Option (sm.Key × Assignment fl.F)) (x : sm.Key × Assignment fl.F)
      → (best ≡ some (slower est best x)) ⊎ (slower est best x ≡ x)
  unfolding slower
  slower-cases est none x = inr refl
  slower-cases est (some b) x = ground arith

  slowest-mem :
      (p : Plan) (est : fl.F) (now : ℕ) (es : List (sm.Key × Assignment fl.F))
      (best : Option (sm.Key × Assignment fl.F)) (e : sm.Key × Assignment fl.F)
      → slowest p est now best es ≡ some e
      → (best ≡ some e) ⊎ Memᴰ e es
  unfolding slowest
  slowest-mem p est now [] best e h = inl h
  slowest-mem p est now (x ∷ es) best e h =
      let next = if eligible p now x.1 then some (slower est best x) else best in
      elim (slowest-mem p est now es next e h) [
        | inl y ↦ elim (Bool-cases (eligible p now x.1)) [
          | inl z ↦
              let w : some (slower est best x) ≡ some e = rw z at y in
              elim (slower-cases est best x) [
                | inl s ↦ inl (s ∙ w)
                | inr s ↦ let q : e ≡ x = cc in inr (Memᴰ.head q)
              ]
          | inr z ↦ inl (rw z at y)
        ]
        | inr y ↦ inr (Memᴰ.tail y)
      ]

  slowest-entry :
      (p : Plan) (est : fl.F) (now : ℕ) (es : List (sm.Key × Assignment fl.F))
      (e : sm.Key × Assignment fl.F)
      → slowest p est now none es ≡ some e
      → Memᴰ e es
  slowest-entry p est now es e h = elim (slowest-mem p est now es none e h) [
    | inl x ↦ cc x
    | inr x ↦ x
  ]

module _ ⦃fl : Float⦄ ⦃sm : SlotMap (Assignment fl.F)⦄ (law : IsLawful sm) where
  -- Stealing picks an assignment of the plan and cuts it strictly between its cursor and its end.
  pub plan_steal_bounds :
      (p : Plan) (est : fl.F) (now : ℕ) (victim : sm.Key) (a : Assignment fl.F) (cut : ℕ)
      → plan_steal p est now ≡ some (some (victim, a, cut))
      → (sm.get p.assignments victim ≡ some a) × (cursor a < cut) × (cut < a.span.end)
  unfolding plan_steal
  plan_steal_bounds p est now victim a cut h =
      elim (Option-cases (slowest p est now none (sm.entries p.assignments))) [
        | inl n ↦ cc (rw (n, plan_steal) at h)
        | inr ((k, b), n) ↦ elim (Option-cases (cut_point p est b)) [
          | inl c ↦ cc (rw (n, c, plan_steal) at h)
          | inr (none, c) ↦ cc (rw (n, c, plan_steal) at h)
          | inr (some m, c) ↦
              let e : some (some (k, b, m)) ≡ some (some (victim, a, cut)) =
                rw (n, c, plan_steal) at h in
              let s = cut_point_bounds p est b m c in
              let w : sm.get p.assignments k ≡ some b =
                (law.mem-entries p.assignments k b).0
                  (slowest-entry p est now (sm.entries p.assignments) (k, b) n) in
              let ek : k ≡ victim = cc e in
              let eb : b ≡ a = cc e in
              let ec : m ≡ cut = cc e in rw (← ek, ← eb, ← ec) (w, s.0, s.1)
        ]
      ]

  -- What a claim returns, if it does not panic, keeps the invariant.
  abbrev Sound : ℕ → Option (Claim sm.Key × Plan) → Type 0
  Sound total none = Unit {0}
  Sound total (some (c, q)) = IsOwned total q

  bind-Sound :
      {A : Type 0} (total : ℕ) (o : Option A) (f : A → Option (Claim sm.Key × Plan))
      → ((a : A) → o ≡ some a → Sound total (f a))
      → Sound total (o >>= f)
  bind-Sound total none f h = tt
  bind-Sound total (some a) f h = h a refl

  steal-Sound :
      (total : ℕ) (p : Plan) (est : fl.F) (now : ℕ)
      → IsOwned total p
      → Sound total (claim_stolen p est now)
  unfolding claim_stolen steal_found
  steal-Sound total p est now o = bind-Sound total (plan_steal p est now) _ λ found e. go found e
    where
      go :
          (found : Option (sm.Key × Assignment fl.F × ℕ))
          → plan_steal p est now ≡ some found
          → Sound total (some (steal_found p now found))
      go none e = o
      go (some (victim, a, cut)) e =
          let (n, lo, hi) = plan_steal_bounds p est now victim a cut e in
          steal_at-IsOwned law total p victim a cut now o n lo hi

  gap-Sound :
      (total : ℕ) (p : Plan) (est : fl.F) (now : ℕ) (solo : Bool) (peer_slots piece : ℕ)
      (gap : Option ByteRange)
      → IsOwned total p
      → next_claimable_gap p total now ≡ gap
      → Sound total (claim_piece p total est now solo peer_slots piece gap)
  unfolding claim_piece
  gap-Sound total p est now solo peer_slots piece none o h = elim (Bool-cases solo) [
    | inl s ↦ rw s o
    | inr s ↦ rw s (steal-Sound total p est now o)
  ]
  gap-Sound total p est now solo peer_slots piece (some gap) o h =
      let (l, m, f) =
        gap_loop-gap p total now (suc total) 0 gap o.claimed_valid
          (found-some _ gap (unfold next_claimable_gap in h)) in
      claim_gap-IsOwned law total p gap (take_len p total piece solo peer_slots) now o l m f

  claim_ranged-Sound :
      (total : ℕ) (p : Plan) (est : fl.F) (now : ℕ) (solo : Bool) (peer_slots : ℕ)
      → IsOwned total p
      → Sound total (claim_ranged p total est now solo peer_slots)
  unfolding claim_ranged
  claim_ranged-Sound total p est now solo peer_slots o =
      bind-Sound total _ _ λ piece e. gap-Sound total p est now solo peer_slots piece _ o refl

  choose-Sound :
      (total : ℕ) (x y : Bool) (a b c : Option (Claim sm.Key × Plan))
      → y ≡ false
      → Sound total a
      → Sound total c
      → Sound total (if x then a else if y then b else c)
  choose-Sound total true y a b c h m n = m
  choose-Sound total false true a b c h m n = cc
  choose-Sound total false false a b c h m n = n

  claim_for-Sound :
      (total : ℕ) (p : Plan) (est : fl.F) (now : ℕ) (solo : Bool) (peer_slots : ℕ)
      → p.single_stream ≡ false
      → IsOwned total p
      → Sound total (claim_for p (some total) est now solo peer_slots)
  unfolding claim_for
  claim_for-Sound total p est now solo peer_slots s o =
      choose-Sound total _ _ (some (complete, p)) _ _ s o
        (claim_ranged-Sound total p est now solo peer_slots o)

  -- On a plan with a known length, on a source that serves ranges, whatever claim_with hands out
  -- keeps the ownership invariant.
  pub claim_with-IsOwned :
      (total : ℕ) (p : Plan) (est : fl.F) (now : ℕ) (solo : Bool) (peer_slots : ℕ)
      (c : Claim sm.Key) (q : Plan)
      → p.total ≡ some total
      → p.single_stream ≡ false
      → IsOwned total p
      → claim_with p est now solo peer_slots ≡ some (c, q)
      → IsOwned total q
  unfolding claim_with
  claim_with-IsOwned total p est now solo peer_slots c q t s o h =
      let e : claim_for p (some total) est now solo peer_slots ≡ some (c, q) =
        ap (λ x. claim_for p x est now solo peer_slots) (sym t) ∙ h in
      rw e at (claim_for-Sound total p est now solo peer_slots s o)
