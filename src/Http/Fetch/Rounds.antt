-- ===== src/Http/Fetch/Rounds.antt =====
-- What the rounds of a delivery leave, compared with the bytes of the body so far.
use mathlib.Core.List.{append_assoc, append-nil}
use xde.Prelude.{
  length-take, length-drop, take-append-drop, ℕ, zero, suc, ◌+◌, ◌-◌, ◌≤◌, ◌<◌, ◌≡◌, sym, ap, ◌∙◌,
  ◌⊎◌, inl, inr, true, false, ◌&&◌, Option, none, some, List, [], ◌∷◌, ◌++◌, min, ltb, leb, length,
  take, drop, arith, Bool-cases, length-append,
}
use xde.Storage.Reorder.{Chunk}
use xde.Http.Fetch.{
  RangeFetch, Progress, Delivery, delivered, oversized_body, sink_failed, Round, finished, again,
  is_none, dynamic_end, amount_of, advance, deliver_round, deliver_loop, deliver_range_bytes,
}

-- The bytes of chunks, one after the other.
abbrev pub got : List (Chunk ℕ) → List ℕ
got [] = []
got (c ∷ cs) = c.payload ++ got cs

-- Chunks that follow each other from an offset.
abbrev pub InPlace : ℕ → List (Chunk ℕ) → Type 0
InPlace start [] = Unit {0}
InPlace start (c ∷ cs) = (c.offset ≡ start) × InPlace (start + length c.payload) cs

abbrev pub Prefix : List ℕ → List ℕ → Type 0
Prefix xs ys = (zs : List ℕ) × (ys ≡ xs ++ zs)

-- A body of which every round can take something.
abbrev pub IsProper : RangeFetch → Type 0
IsProper f = (f.wire_range.start ≤ f.wire_range.end) × (1 ≤ f.memory_limit) × (1 ≤ f.max_chunk_size)

-- The chunks follow each other from the start of the range and stay inside it, and the counters say
-- how far they are.
abbrev pub Base : RangeFetch → Progress → Type 0
Base f p =
    InPlace f.wire_range.start p.chunks
    × (p.offset ≡ f.wire_range.start + length (got p.chunks))
    × (p.received ≡ length (got p.chunks))
    × (p.offset ≤ f.wire_range.end)

pub got-append : (cs : List (Chunk ℕ)) (c : Chunk ℕ) → got (cs ++ c ∷ []) ≡ got cs ++ c.payload
got-append [] c = append-nil c.payload
got-append (d ∷ cs) c =
    ap (λ xs. d.payload ++ xs) (got-append cs c) ∙ sym (append_assoc d.payload (got cs) c.payload)

pub InPlace-append :
    (start : ℕ) (cs : List (Chunk ℕ)) (c : Chunk ℕ)
    → InPlace start cs
    → c.offset ≡ start + length (got cs)
    → InPlace start (cs ++ c ∷ [])
InPlace-append start [] c h e = (omega (arith, e), tt)
InPlace-append start (d ∷ cs) c h e = (
  h.0,
  InPlace-append (start + length d.payload) cs c h.1
      (omega (arith, e, length-append d.payload (got cs))),
)

-- What a delivery gives for the bytes of the body so far: the chunks hold a prefix of them, and all
-- of them unless the boundary or the end of the range is reached; an oversized body has more bytes
-- than the range.
abbrev pub Delivered : RangeFetch → List ℕ → Delivery → Type 0
Delivered f seen (delivered q) =
    Base f q
    × Prefix (got q.chunks) seen
    × ((q.truncated ≡ true) ⊎ ((got q.chunks ≡ seen) ⊎ (q.offset ≡ f.wire_range.end)))
Delivered f seen (oversized_body received expected) =
    f.wire_range.end < f.wire_range.start + length seen
Delivered f seen sink_failed = Unit {0}

-- A round, where the chunks so far and the bytes at hand make up what was seen.
abbrev Rounded : RangeFetch → List ℕ → ℕ → Round → Type 0
Rounded f seen n (finished d) = Delivered f seen d
Rounded f seen n (again rest q) = Base f q × (got q.chunks ++ rest ≡ seen) × (length rest < n)

taken-Base :
    (f : RangeFetch) (p : Progress) (amount : ℕ) (bytes : List ℕ) (seen : List ℕ)
    → Base f p
    → got p.chunks ++ bytes ≡ seen
    → 1 ≤ amount
    → amount ≤ length bytes
    → p.offset + amount ≤ f.wire_range.end
    → Rounded f seen (length bytes) (
        again
          (drop amount bytes)
          (advance f amount (record { offset = p.offset; payload = take amount bytes }) p))
unfolding advance
taken-Base f p amount bytes seen b e l m n =
    let c : Chunk ℕ = record { offset = p.offset; payload = take amount bytes } in
    let g = got-append p.chunks c in
    let size = ap (λ xs. length xs) g ∙ length-append (got p.chunks) (take amount bytes) in
    let t = length-take amount bytes m in
    (
      (
        InPlace-append f.wire_range.start p.chunks c b.0 b.1,
        omega (arith, b.1, size, t),
        omega (arith, b.2, size, t),
        n,
      ),
      ap (λ xs. xs ++ drop amount bytes) g
          ∙ (append_assoc (got p.chunks) (take amount bytes) (drop amount bytes)
              ∙ (ap (λ xs. got p.chunks ++ xs) (take-append-drop amount bytes) ∙ e)),
      omega (arith, length-drop amount bytes, l, m),
    )

dynamic_end-bound : (f : RangeFetch) (p : Progress) → dynamic_end f p ≤ f.wire_range.end
unfolding dynamic_end
dynamic_end-bound f p = bound f.end_offset
  where
    bound :
        (m : Option (ℕ → ℕ))
        → (elim m [ none ↦ f.wire_range.end | some read ↦ min (read p.rounds) f.wire_range.end ])
          ≤ f.wire_range.end
    bound none = omega arith
    bound (some read) = omega arith

-- The round that ends at the boundary.
boundary-Delivered :
    (f : RangeFetch) (p : Progress) (bytes seen : List ℕ)
    → Base f p
    → got p.chunks ++ bytes ≡ seen
    → leb (dynamic_end f p) p.offset ≡ true
    → Delivered f seen (
        delivered
          (record p { truncated = ltb (dynamic_end f p) f.wire_range.end; rounds = suc p.rounds }))
boundary-Delivered f p bytes seen b e h = (
  b,
  (bytes, sym e),
  elim (Bool-cases (ltb (dynamic_end f p) f.wire_range.end)) [
    | inl k ↦ inl k
    | inr k ↦ inr (inr (ground (arith, h, k, b.3)))
  ],
)

amount-bounds :
    (f : RangeFetch) (p : Progress) (bytes : List ℕ)
    → IsProper f
    → leb (dynamic_end f p) p.offset ≡ false
    → 1 ≤ length bytes
    → (1 ≤ amount_of f bytes p)
      × (amount_of f bytes p ≤ length bytes)
      × (p.offset + amount_of f bytes p ≤ f.wire_range.end)
unfolding amount_of
amount-bounds f p bytes i h l =
    let k : p.offset < dynamic_end f p = ground (arith, h) in
    let m = dynamic_end-bound f p in
    (omega (arith, k, l, i.1, i.2), omega arith, omega (arith, k, m))

deliver_round-Rounded :
    (f : RangeFetch) (p : Progress) (bytes seen : List ℕ)
    → IsProper f
    → Base f p
    → got p.chunks ++ bytes ≡ seen
    → Rounded f seen (length bytes) (deliver_round f bytes p)
unfolding deliver_round
deliver_round-Rounded f p [] seen i b e =
    (b, ([], sym e), inr (inl (sym (append-nil (got p.chunks)) ∙ e)))
deliver_round-Rounded f p (x ∷ xs) seen i b e =
    let amount = amount_of f (x ∷ xs) p in
    let chunk : Chunk ℕ = record { offset = p.offset; payload = take amount (x ∷ xs) } in
    elim (Bool-cases (leb (dynamic_end f p) p.offset)) [
      | inl h ↦ rw (h, Rounded) (boundary-Delivered f p (x ∷ xs) seen b e h)
      | inr h ↦
          elim (Bool-cases
            (ltb (f.wire_range.end - p.offset) (suc (length xs)) && is_none f.end_offset)) [
              | inl k ↦
                  let size = sym (length-append (got p.chunks) (x ∷ xs)) ∙ ap (λ ys. length ys) e in
                  rw (h, k, Rounded) (ground (arith, k, size, b.1))
              | inr k ↦ elim (Bool-cases (f.accepts p.chunks chunk)) [
                | inl m ↦
                    let a = amount-bounds f p (x ∷ xs) i h (omega arith) in
                    rw (h, k, m, Rounded) (taken-Base f p amount (x ∷ xs) seen b e a.0 a.1 a.2)
                | inr m ↦ rw (h, k, m, Rounded) tt
              ]
            ]
    ]

deliver_loop-Delivered :
    (f : RangeFetch) (fuel : ℕ) (bytes : List ℕ) (p : Progress) (seen : List ℕ)
    → IsProper f
    → Base f p
    → got p.chunks ++ bytes ≡ seen
    → length bytes < fuel
    → Delivered f seen (deliver_loop f fuel bytes p)
unfolding deliver_loop
deliver_loop-Delivered f zero bytes p seen i b e l = ground (arith, l)
deliver_loop-Delivered f (suc fuel) bytes p seen i b e l =
    next (deliver_loop-Delivered f fuel) (deliver_round f bytes p)
      (deliver_round-Rounded f p bytes seen i b e)
  where
    next :
        ((rest : List ℕ) (q : Progress) (all : List ℕ)
          → IsProper f
          → Base f q
          → got q.chunks ++ rest ≡ all
          → length rest < fuel
          → Delivered f all (deliver_loop f fuel rest q))
        → (r : Round) → Rounded f seen (length bytes) r
        → Delivered f seen (elim r [ finished d ↦ d | again rest q ↦ deliver_loop f fuel rest q ])
    next go (finished d) h = h
    next go (again rest q) h = go rest q seen i h.0 h.1 (omega (arith, h.2, l))

-- Delivering a frame when everything before it was taken.
pub deliver-exact :
    (f : RangeFetch) (bytes : List ℕ) (p : Progress) (seen : List ℕ)
    → IsProper f
    → Base f p
    → got p.chunks ≡ seen
    → Delivered f (seen ++ bytes) (deliver_range_bytes f bytes p)
unfolding deliver_range_bytes
deliver-exact f bytes p seen i b e =
    deliver_loop-Delivered f (suc (length bytes)) bytes p (seen ++ bytes) i b
      (ap (λ xs. xs ++ bytes) e) (omega arith)

-- Delivering a frame behind the end of the range.
pub deliver-full :
    (f : RangeFetch) (bytes : List ℕ) (p : Progress) (seen : List ℕ)
    → Base f p
    → Prefix (got p.chunks) seen
    → p.offset ≡ f.wire_range.end
    → Delivered f (seen ++ bytes) (deliver_range_bytes f bytes p)
unfolding deliver_range_bytes deliver_loop deliver_round
deliver-full f [] p seen b h e = (b, (h.0, append-nil seen ∙ h.1), inr (inr e))
deliver-full f (x ∷ xs) p seen b h e =
    let at : leb (dynamic_end f p) p.offset ≡ true = ground (arith, dynamic_end-bound f p, e) in
    let all : got p.chunks ++ (h.0 ++ x ∷ xs) ≡ seen ++ x ∷ xs =
      sym (append_assoc (got p.chunks) h.0 (x ∷ xs)) ∙ ap (λ ys. ys ++ x ∷ xs) (sym h.1) in
    rw (at, Delivered) (boundary-Delivered f p (h.0 ++ x ∷ xs) (seen ++ x ∷ xs) b all at)
