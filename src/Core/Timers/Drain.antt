-- ===== src/Core/Timers/Drain.antt =====
-- Draining a queue of timers.
use mathlib.Core.List.{Permᴰ}
use mathlib.Core.List.Permᴰ
use mathlib.Core.Path.{subst}
use xde.Prelude.{
  ℕ, zero, suc, ◌≤◌, ◌<◌, ◌≡◌, refl, sym, ◌==◌, ltb, ap, ◌∙◌, ◌⊎◌, inl, inr, true, false, List, [],
  ◌∷◌, ◌++◌, map, arith, leb, length, Bool-cases,
}
use xde.Core.Timers.{
  TimerEvent, ScheduledItem, Ordering, less, equal, greater, cmp, compare_numbers, then_with,
  TimerQueue, keep_greatest, greatest, pop_expired, drain_loop, drain_expired,
}

-- An item that leaves before another: at an earlier instant, or scheduled no later for the same.
abbrev pub Before : ScheduledItem → ScheduledItem → Type 0
Before x y = (x.at < y.at) ⊎ ((x.at ≡ y.at) × (x.seq ≤ y.seq))

abbrev pub AllOf : (ScheduledItem → Type 0) → List ScheduledItem → Type 0
AllOf P [] = Unit {0}
AllOf P (x ∷ xs) = P x × AllOf P xs

-- Items in the order in which they leave.
abbrev pub InOrder : List ScheduledItem → Type 0
InOrder [] = Unit {0}
InOrder (x ∷ xs) = AllOf (Before x) xs × InOrder xs

AllOf-map :
    {P Q : ScheduledItem → Type 0} (xs : List ScheduledItem)
    → ((x : ScheduledItem) → P x → Q x)
    → AllOf P xs
    → AllOf Q xs
AllOf-map [] f h = tt
AllOf-map (x ∷ xs) f h = (f x h.0, AllOf-map xs f h.1)

AllOf-perm :
    (P : ScheduledItem → Type 0) {xs ys : List ScheduledItem}
    → Permᴰ xs ys
    → AllOf P xs
    → AllOf P ys
AllOf-perm P Permᴰ.nil h = tt
AllOf-perm P (Permᴰ.cons e p) h = (subst P e h.0, AllOf-perm P p h.1)
AllOf-perm P (Permᴰ.swap e f) h = (subst P f h.1.0, (subst P e h.0, h.1.1))
AllOf-perm P (Permᴰ.trans p q) h = AllOf-perm P q (AllOf-perm P p h)

Before-trans : (x y z : ScheduledItem) → Before x y → Before y z → Before x z
Before-trans x y z h k = ground arith

-- What a comparison says about two numbers, and about two items.
Says : Ordering → ℕ → ℕ → Type 0
Says less a b = a < b
Says equal a b = a ≡ b
Says greater a b = b < a

compare_numbers-Says : (a b : ℕ) → Says (compare_numbers a b) a b
unfolding Says
compare_numbers-Says a b = elim (Bool-cases (ltb a b)) [
  | inl e ↦ rw (e, Says) (ground (arith, e))
  | inr e ↦ elim (Bool-cases (a == b)) [
    | inl f ↦ rw (e, f, Says) (ground (arith, f))
    | inr f ↦ rw (e, f, Says) (ground (arith, e, f))
  ]
]

Ranks : Ordering → ScheduledItem → ScheduledItem → Type 0
Ranks less x y = Before y x
Ranks equal x y = Before x y
Ranks greater x y = Before x y

then_with-Ranks :
    (o p : Ordering) (x y : ScheduledItem)
    → Says o y.at x.at
    → Says p y.seq x.seq
    → Ranks (then_with o p) x y
unfolding Says Ranks
then_with-Ranks less p x y h k = inl h
then_with-Ranks greater p x y h k = inl h
then_with-Ranks equal less x y h k = inr (h, omega (arith, k))
then_with-Ranks equal equal x y h k = inr (sym h, omega (arith, k))
then_with-Ranks equal greater x y h k = inr (sym h, omega (arith, k))

cmp-Ranks : (x y : ScheduledItem) → Ranks (cmp x y) x y
cmp-Ranks x y =
    then_with-Ranks (compare_numbers y.at x.at) (compare_numbers y.seq x.seq) x y
      (compare_numbers-Says y.at x.at) (compare_numbers-Says y.seq x.seq)

keep_greatest-perm :
    (o : Ordering) (x : ScheduledItem) (best : ScheduledItem × List ScheduledItem)
    → Permᴰ ((keep_greatest o x best).0 ∷ (keep_greatest o x best).1) (x ∷ best.0 ∷ best.1)
unfolding keep_greatest
keep_greatest-perm less x best = Permᴰ.swap refl refl
keep_greatest-perm equal x best = Permᴰ.refl _
keep_greatest-perm greater x best = Permᴰ.refl _

greatest-perm :
    (x : ScheduledItem) (xs : List ScheduledItem)
    → Permᴰ ((greatest x xs).0 ∷ (greatest x xs).1) (x ∷ xs)
unfolding greatest
greatest-perm x [] = Permᴰ.refl (x ∷ [])
greatest-perm x (y ∷ ys) =
    Permᴰ.trans (keep_greatest-perm (cmp x (greatest y ys).0) x (greatest y ys))
      (Permᴰ.cons refl (greatest-perm y ys))

keep_greatest-Before :
    (o : Ordering) (x : ScheduledItem) (best : ScheduledItem × List ScheduledItem)
    → Ranks o x best.0
    → AllOf (Before best.0) best.1
    → AllOf (Before (keep_greatest o x best).0) (keep_greatest o x best).1
unfolding keep_greatest Ranks
keep_greatest-Before less x best r h = (r, h)
keep_greatest-Before equal x best r h = (r, AllOf-map best.1 (λ y. Before-trans x best.0 y r) h)
keep_greatest-Before greater x best r h = (r, AllOf-map best.1 (λ y. Before-trans x best.0 y r) h)

greatest-Before :
    (x : ScheduledItem) (xs : List ScheduledItem)
    → AllOf (Before (greatest x xs).0) (greatest x xs).1
unfolding greatest
greatest-Before x [] = tt
greatest-Before x (y ∷ ys) =
    keep_greatest-Before (cmp x (greatest y ys).0) x (greatest y ys) (cmp-Ranks x (greatest y ys).0)
      (greatest-Before y ys)

length-keep_greatest :
    (o : Ordering) (x : ScheduledItem) (best : ScheduledItem × List ScheduledItem)
    → length (keep_greatest o x best).1 ≡ suc (length best.1)
unfolding keep_greatest
length-keep_greatest less x best = refl
length-keep_greatest equal x best = refl
length-keep_greatest greater x best = refl

length-greatest :
    (x : ScheduledItem) (xs : List ScheduledItem) → length (greatest x xs).1 ≡ length xs
unfolding greatest
length-greatest x [] = refl
length-greatest x (y ∷ ys) =
    length-keep_greatest (cmp x (greatest y ys).0) x (greatest y ys) ∙ ap suc (length-greatest y ys)

-- A drained queue: the items that left, in order and due, whose events these are, and the items
-- that stay, none of which is due.
abbrev pub Drained : ℕ → List ScheduledItem → List TimerEvent × TimerQueue → Type 0
Drained now before out =
    (items : List ScheduledItem) × (out.0 ≡ map (λ i. i.event) items)
    × Permᴰ (items ++ out.1.heap) before
    × InOrder items
    × AllOf (λ i. i.at ≤ now) items
    × AllOf (λ i. now < i.at) out.1.heap

AllOf-prefix :
    (P : ScheduledItem → Type 0) (xs ys : List ScheduledItem) → AllOf P (xs ++ ys) → AllOf P xs
AllOf-prefix P [] ys h = tt
AllOf-prefix P (x ∷ xs) ys h = (h.0, AllOf-prefix P xs ys h.1)

Drained-cons :
    (now : ℕ) (top : ScheduledItem) (left before : List ScheduledItem)
    (out : List TimerEvent × TimerQueue)
    → top.at ≤ now
    → Permᴰ (top ∷ left) before
    → AllOf (Before top) left
    → Drained now left out
    → Drained now before (top.event ∷ out.0, out.1)
Drained-cons now top left before out l p b d = (
  top ∷ d.0,
  ap (top.event ∷◌) d.1,
  Permᴰ.trans (Permᴰ.cons refl d.2) p,
  (AllOf-prefix (Before top) d.0 out.1.heap (AllOf-perm (Before top) (Permᴰ.symm d.2) b), d.3),
  (l, d.4),
  d.5,
)

nothing_due :
    (now : ℕ) (x : ScheduledItem) (xs : List ScheduledItem)
    → now < (greatest x xs).0.at
    → AllOf (λ i. now < i.at) (x ∷ xs)
nothing_due now x xs l =
    AllOf-perm (λ i. now < i.at) (greatest-perm x xs)
      (l, AllOf-map (greatest x xs).1 (λ y b. ground (arith, b, l)) (greatest-Before x xs))

drain_loop-due :
    (now n seq : ℕ) (x : ScheduledItem) (xs : List ScheduledItem)
    → leb (greatest x xs).0.at now ≡ true
    → drain_loop now (suc n) (record { heap = x ∷ xs; next_seq = seq }) ≡ (
      (greatest x xs).0.event
          ∷ (drain_loop now n (record { heap = (greatest x xs).1; next_seq = seq })).0,
      (drain_loop now n (record { heap = (greatest x xs).1; next_seq = seq })).1,
    )
unfolding drain_loop pop_expired
drain_loop-due now n seq x xs e = rw (e, drain_loop) refl

drain_loop-not_due :
    (now n seq : ℕ) (x : ScheduledItem) (xs : List ScheduledItem)
    → leb (greatest x xs).0.at now ≡ false
    → drain_loop now (suc n) (record { heap = x ∷ xs; next_seq = seq })
      ≡ ([], record { heap = x ∷ xs; next_seq = seq })
unfolding drain_loop pop_expired
drain_loop-not_due now n seq x xs e = rw (e, drain_loop) refl

drain_loop-Drained :
    (now n seq : ℕ) (xs : List ScheduledItem)
    → length xs ≤ n
    → Drained now xs (drain_loop now n (record { heap = xs; next_seq = seq }))
unfolding drain_loop pop_expired
drain_loop-Drained now zero seq [] l = ([], refl, Permᴰ.nil, tt, tt, tt)
drain_loop-Drained now zero seq (x ∷ xs) l = ground (arith, l)
drain_loop-Drained now (suc n) seq [] l = ([], refl, Permᴰ.nil, tt, tt, tt)
drain_loop-Drained now (suc n) seq (x ∷ xs) l =
    let top = greatest x xs in
    elim (Bool-cases (leb top.0.at now)) [
      | inl e ↦
          let m : length top.1 ≤ n = omega (arith, l, length-greatest x xs) in
          rw (drain_loop-due now n seq x xs e) (
            Drained-cons now top.0 top.1 (x ∷ xs)
              (drain_loop now n (record { heap = top.1; next_seq = seq })) (ground (arith, e))
              (greatest-perm x xs) (greatest-Before x xs) (drain_loop-Drained now n seq top.1 m))
      | inr e ↦
          rw (drain_loop-not_due now n seq x xs e)
            ([], refl, Permᴰ.refl (x ∷ xs), tt, tt, nothing_due now x xs (ground (arith, e)))
    ]

-- Draining a queue of timers gives the events of exactly the items that are due, each once, in the
-- order of their instants and then of their numbers; the others stay.
pub drain_expired-Drained : (now : ℕ) (q : TimerQueue) → Drained now q.heap (drain_expired now q)
unfolding drain_expired
drain_expired-Drained now q = drain_loop-Drained now (length q.heap) q.next_seq q.heap (omega arith)
