-- ===== src/Storage/Budget/Held.antt =====
-- What is held of a memory budget, together and by speculative payloads.
use mathlib.Core.Path.{subst}
use xde.Prelude.{
  total, total-middle, ℕ, ◌+◌, ◌-◌, ◌≤◌, ◌<◌, ◌^◌, ◌≡◌, refl, sym, ◌⊎◌, inl, inr, Bool-cases, some,
  List, [], ◌∷◌, ◌++◌, arith, leb, ltb, ◌==◌, if◌then◌else◌, wsub-eq,
}
use xde.Storage.Budget.{
  MemoryBudget, ProgressClass, frontier, speculative, MemoryPermit, with_reserve, effective_limit,
  admit, try_acquire, acquire, release, Tasks, Step, acquires, drops, Run, done, step,
}

abbrev pub held : MemoryPermit → ℕ
held p = p.bytes

abbrev pub speculative_bytes : ProgressClass → ℕ → ℕ
speculative_bytes frontier n = 0
speculative_bytes speculative n = n

-- Whether a speculative permit holds something.
abbrev pub speculative_count : ProgressClass → ℕ → ℕ
speculative_count frontier n = 0
speculative_count speculative n = if n == 0 then 0 else 1

abbrev pub held_speculatively : MemoryPermit → ℕ
held_speculatively p = speculative_bytes p.class p.bytes

abbrev pub counted_speculatively : MemoryPermit → ℕ
counted_speculatively p = speculative_count p.class p.bytes

bytes_bound : (c : ProgressClass) (n : ℕ) → speculative_bytes c n ≤ n
bytes_bound frontier n = omega arith
bytes_bound speculative n = omega arith

count_bound : (c : ProgressClass) (n : ℕ) → speculative_count c n ≤ n
count_bound frontier n = omega arith
count_bound speculative n = ground arith

count_zero : (c : ProgressClass) (n : ℕ) → speculative_count c n ≡ 0 → speculative_bytes c n ≡ 0
count_zero frontier n h = refl
count_zero speculative n h = ground (arith, h)

pub total-speculative :
    (ps : List MemoryPermit)
    → (total held_speculatively ps ≤ total held ps)
      × (total counted_speculatively ps ≤ total held ps)
total-speculative [] = (omega arith, omega arith)
total-speculative (p ∷ ps) =
    let rest = total-speculative ps in
    (
      omega (arith, rest.0, bytes_bound p.class p.bytes),
      omega (arith, rest.1, count_bound p.class p.bytes),
    )

total-none :
    (ps : List MemoryPermit) → total counted_speculatively ps ≡ 0 → total held_speculatively ps ≡ 0
total-none [] h = refl
total-none (p ∷ ps) h =
    let here : speculative_count p.class p.bytes ≡ 0 = omega (arith, h) in
    let there : total counted_speculatively ps ≡ 0 = omega (arith, h) in
    omega (arith, count_zero p.class p.bytes here, total-none ps there)

-- The counter is what the permits hold, it is at most the limit, and speculative payloads hold no
-- more than the budget less the reserve, or one of them alone holds
-- something.
abbrev pub IsFair : Tasks → Type 0
IsFair s =
    (s.budget.used ≡ total held s.permits)
    × (s.budget.used ≤ s.budget.limit)
    × (s.budget.limit < 2 ^ 64)
    × (s.budget.reserve ≤ s.budget.limit)
    × ((total held_speculatively s.permits ≤ s.budget.limit - s.budget.reserve)
        ⊎ (total counted_speculatively s.permits ≡ 1))

-- A request is given room exactly if it fits into the budget, and into what its class may use of
-- it now.
pub acquire-some :
    (b c : MemoryBudget) (class : ProgressClass) (bytes : ℕ)
    → acquire b class bytes ≡ some c
    → (bytes ≤ b.limit)
      × (bytes ≤ effective_limit b class bytes - b.used)
      × (c ≡ record b { used = b.used + bytes })
unfolding acquire admit try_acquire
acquire-some b c class bytes h = elim (Bool-cases (ltb b.limit bytes)) [
  | inl e ↦ cc (rw e at h)
  | inr e ↦ elim (Bool-cases (leb bytes (effective_limit b class bytes - b.used))) [
    | inl f ↦ (ground (arith, e), ground (arith, f), cc (rw (e, f) at h))
    | inr f ↦ cc (rw (e, f) at h)
  ]
]

-- The sums after a request was given room.
acquire-IsFair :
    (s : Tasks) (class : ProgressClass) (bytes : ℕ)
    → IsFair s
    → bytes ≤ s.budget.limit
    → bytes ≤ effective_limit s.budget class bytes - s.budget.used
    → IsFair (record {
      budget = record s.budget { used = s.budget.used + bytes };
      permits = record { class = class; bytes = bytes } ∷ s.permits;
    })
unfolding effective_limit
acquire-IsFair s frontier bytes h l m =
    (omega (arith, h.0), omega (arith, h.1, m, l), h.2, h.3, ground (arith, h.4))
acquire-IsFair s speculative bytes h l m =
    let t = total-speculative s.permits in
    (omega (arith, h.0), ground (arith, h.1, m, l), h.2, h.3, ground (arith, t.0, t.1, m, h.0, h.4))

drops-IsFair :
    (b : MemoryBudget) (xs ys : List MemoryPermit) (p : MemoryPermit)
    → IsFair (record { budget = b; permits = xs ++ p ∷ ys })
    → IsFair (record { budget = release b p; permits = xs ++ ys })
unfolding release
drops-IsFair b xs ys p h =
    let all = total-middle held xs ys p in
    let e = wsub-eq b.used p.bytes (omega (arith, all, h.0)) (omega (arith, h.1, h.2)) in
    (omega (arith, e, all, h.0), omega (arith, e, h.1), h.2, h.3, sums h.4)
  where
    sums :
        (total held_speculatively (xs ++ p ∷ ys) ≤ b.limit - b.reserve)
          ⊎ (total counted_speculatively (xs ++ p ∷ ys) ≡ 1)
        → (total held_speculatively (xs ++ ys) ≤ b.limit - b.reserve)
          ⊎ (total counted_speculatively (xs ++ ys) ≡ 1)
    sums (inl l) = inl (omega (arith, l, total-middle held_speculatively xs ys p))
    sums (inr c) = elim (Bool-cases (counted_speculatively p == 0)) [
      | inl f ↦ inr (ground (arith, f, c, total-middle counted_speculatively xs ys p))
      | inr f ↦
          let none : total counted_speculatively (xs ++ ys) ≡ 0 =
            ground (arith, f, c, total-middle counted_speculatively xs ys p) in
          inl (omega (arith, total-none (xs ++ ys) none))
    ]

Step-IsFair : (s t : Tasks) → Step s t → IsFair s → IsFair t
Step-IsFair s t (acquires _ class bytes b e) h =
    let a = acquire-some s.budget b class bytes e in
    subst
      (λ c.
        IsFair
          (record { budget = c; permits = record { class = class; bytes = bytes } ∷ s.permits }))
      (sym a.2) (acquire-IsFair s class bytes h a.0 a.1)
Step-IsFair s t (drops b xs ys p) h = drops-IsFair b xs ys p h

Run-IsFair : (s t : Tasks) → Run s t → IsFair s → IsFair t
Run-IsFair s t (done _) h = h
Run-IsFair s t (step _ u _ a r) h = Run-IsFair u t r (Step-IsFair s u a h)

abbrev pub idle : ℕ → ℕ → Tasks
idle limit reserve = record { budget = with_reserve limit reserve; permits = [] }

idle-IsFair : (limit reserve : ℕ) → limit < 2 ^ 64 → IsFair (idle limit reserve)
unfolding with_reserve
idle-IsFair limit reserve l = (refl, omega arith, omega (arith, l), omega arith, inl (omega arith))

-- Whatever tasks acquire and drop, the counter of a budget below 2^64 is what the permits hold and
-- at most the limit, and speculative permits leave the reserve free unless a single one of them
-- holds anything.
pub Run-idle-IsFair :
    (limit reserve : ℕ) (s : Tasks) → limit < 2 ^ 64 → Run (idle limit reserve) s → IsFair s
Run-idle-IsFair limit reserve s l r =
    Run-IsFair (idle limit reserve) s r (idle-IsFair limit reserve l)
