-- ===== src/Storage/Reorder/Stuck.antt =====
-- A pending chunk of a `SequentialAdapter` whose start the next offset has passed.
use xde.Prelude.{
  ℕ, ◌+◌, ◌-◌, ◌≤◌, ◌<◌, ◌≡◌, refl, false, List, [], ◌∷◌, arith, ltb, leb, drop, zero, suc, ap, ◌∙◌,
  ◌==◌, any, length, wadd, wadd-eq, u64_mod, Bool-cases, inl, inr,
}
use xde.Storage.Reorder.{
  Sink, Chunk, accepted, trim_prefix, insert_pending, Adapter, drain, push_and_drain, accept,
}
use xde.Storage.Reorder.Order.{push-cases, push_and_drain-refused, push_and_drain-pushed}

module _ ⦃sink : Sink⦄ where
  -- The first pending chunk starts before the next offset.
  abbrev pub Overtaken : Adapter → Chunk sink.Byte → List (Chunk sink.Byte) → Type 0
  Overtaken a d ds = (a.pending ≡ d ∷ ds) × (d.offset < a.next_offset)

  drain_behind :
      (d : Chunk sink.Byte) (ds : List (Chunk sink.Byte)) (a : Adapter)
      → d.offset < a.next_offset
      → drain (d ∷ ds) a ≡ (accepted, record a { pending = d ∷ ds })
  unfolding drain
  drain_behind d ds a h = let e : (d.offset == a.next_offset) ≡ false = ground arith in rw e refl

  -- A drain that starts behind its first chunk leaves it.
  drain-Overtaken :
      (a : Adapter) (d : Chunk sink.Byte) (ds : List (Chunk sink.Byte))
      → Overtaken a d ds
      → Overtaken (drain a.pending a).1 d ds
  drain-Overtaken a d ds o =
      let n : drain a.pending a ≡ (accepted, record a { pending = d ∷ ds }) =
        ap (λ cs. drain cs a) o.0 ∙ drain_behind d ds a o.1 in
      rw n (refl, o.1)

  push_and_drain-Overtaken :
      (a : Adapter) (c d : Chunk sink.Byte) (ds : List (Chunk sink.Byte))
      → a.next_offset + length c.payload < u64_mod
      → Overtaken a d ds
      → Overtaken (push_and_drain a c).1 d ds
  push_and_drain-Overtaken a c d ds k o = elim (push-cases a.inner c.payload) [
    | inl p ↦ rw (push_and_drain-refused a c p) o
    | inr p ↦
        let w : wadd a.next_offset (length c.payload) ≡ a.next_offset + length c.payload =
          wadd-eq a.next_offset (length c.payload) k in
        let b : Adapter = record a {
          inner = (sink.push a.inner c.payload).1;
          next_offset = wadd a.next_offset (length c.payload);
        } in
        rw (push_and_drain-pushed a c p) (drain-Overtaken b d ds (o.0, rw w (omega (arith, o.1))))
  ]

  length-drop_le : {A : Type 0} (n : ℕ) (xs : List A) → length (drop n xs) ≤ length xs
  length-drop_le zero xs = omega arith
  length-drop_le (suc n) [] = omega arith
  length-drop_le (suc n) (x ∷ xs) = omega (arith, length-drop_le n xs)

  -- Once the first pending chunk starts before the next offset, no later chunk that ends below 2^64
  -- frees it: after accept it is still the first pending chunk, so nothing pending is ever drained.
  pub accept-Overtaken :
      (a : Adapter) (c d : Chunk sink.Byte) (ds : List (Chunk sink.Byte))
      → a.next_offset + length c.payload < u64_mod
      → Overtaken a d ds
      → (es : List (Chunk sink.Byte)) × Overtaken (accept a c).1 d es
  unfolding accept
  accept-Overtaken a c d ds k o = elim (Bool-cases (ltb c.offset a.next_offset)) [
    | inl e ↦ elim (Bool-cases (leb (length c.payload) (a.next_offset - c.offset))) [
      | inl x ↦ (ds, rw (e, x) o)
      | inr x ↦
          let n = a.next_offset - c.offset in
          let l : length (trim_prefix n c).payload ≤ length c.payload =
            (unfold trim_prefix in length-drop_le n c.payload) in
          (ds, rw (e, x) (push_and_drain-Overtaken a (trim_prefix n c) d ds (omega arith) o))
    ]
    | inr e ↦ elim (Bool-cases (c.offset == a.next_offset)) [
      | inl x ↦ (ds, rw (e, x) (push_and_drain-Overtaken a c d ds k o))
      | inr x ↦ elim (Bool-cases (any (λ y. y.offset == c.offset) a.pending)) [
        | inl y ↦ (ds, rw (e, x, y) o)
        | inr y ↦
            let after : ltb c.offset d.offset ≡ false = ground (arith, o.1) in
            let b : Adapter = record a {
              buffered_bytes = wadd a.buffered_bytes (length c.payload);
              pending = insert_pending c a.pending;
            } in
            let q : insert_pending c a.pending ≡ d ∷ insert_pending c ds =
              ap (insert_pending c) o.0 ∙ (unfold insert_pending in rw after refl) in
            (insert_pending c ds, rw (e, x, y) (drain-Overtaken b d (insert_pending c ds) (q, o.1)))
      ]
    ]
  ]
