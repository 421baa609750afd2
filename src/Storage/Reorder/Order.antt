-- ===== src/Storage/Reorder/Order.antt =====
-- What the sink of a `SequentialAdapter` has got, compared with the artifact.
use xde.Prelude.{
  ℕ, ◌+◌, ◌-◌, ◌≤◌, ◌<◌, ◌≡◌, refl, ap, ◌∙◌, List, [], ◌∷◌, ◌++◌, arith, ltb, false, true, sym, ◌⊎◌,
  leb, ◌==◌, any, length, drop, wadd, wadd-eq, u64_mod, Bool-cases, inl, inr,
}
use xde.Storage.Reorder.{
  Sink, Chunk, Outcome, accepted, duplicate, refused, trim_prefix, insert_pending, Adapter,
  push_now, drain, drain_after, push_and_drain, accept,
}
use xde.Storage.Reorder.Bytes.{bytes_from, bytes_from-append, drop-bytes_from, length-bytes_from}

module _ ⦃sink : Sink⦄ where
  -- A push failed, or it succeeded.
  pub push-cases :
      (s : sink.State) (bs : List sink.Byte)
      → ((sink.push s bs).0 ≡ false) ⊎ ((sink.push s bs).0 ≡ true)
  push-cases s bs = elim (Bool-cases (sink.push s bs).0) [ inl e ↦ inr e | inr e ↦ inl e ]

  pub push_and_drain-refused :
      (a : Adapter) (c : Chunk sink.Byte)
      → (sink.push a.inner c.payload).0 ≡ false
      → push_and_drain a c ≡ (refused, record a { inner = (sink.push a.inner c.payload).1 })
  unfolding push_and_drain drain_after push_now
  push_and_drain-refused a c p =
      let b : Adapter = record a { inner = (sink.push a.inner c.payload).1 } in
      let n : push_now a c ≡ (refused, b) = rw (p, push_now) refl in ap drain_after n

  pub push_and_drain-pushed :
      (a : Adapter) (c : Chunk sink.Byte)
      → (sink.push a.inner c.payload).0 ≡ true
      → push_and_drain a c
        ≡ drain a.pending (record a {
          inner = (sink.push a.inner c.payload).1;
          next_offset = wadd a.next_offset (length c.payload);
        })
  unfolding push_and_drain drain_after push_now
  push_and_drain-pushed a c p =
      let b : Adapter = record a {
        inner = (sink.push a.inner c.payload).1;
        next_offset = wadd a.next_offset (length c.payload);
      } in
      let n : push_now a c ≡ (accepted, b) = rw (p, push_now) refl in ap drain_after n

-- A sink that keeps what it accepts: `log` is what it has got so far. Nothing is asked of a push
-- that fails.
pub record IsLog (sink : Sink) : Type 0 where
  pub log : sink.State → List sink.Byte
  pub log-push :
      (s : sink.State) (bs : List sink.Byte)
      → (sink.push s bs).0 ≡ true
      → log (sink.push s bs).1 ≡ log s ++ bs

module _ ⦃sink : Sink⦄ (kept : IsLog sink) (f : ℕ → sink.Byte) (start : ℕ) where
  -- A chunk holds the artifact's bytes, and ends below 2^64.
  abbrev pub Agrees : Chunk sink.Byte → Type 0
  Agrees c =
      (c.payload ≡ bytes_from f c.offset (length c.payload))
      × (c.offset + length c.payload < u64_mod)

  abbrev pub AllAgree : List (Chunk sink.Byte) → Type 0
  AllAgree [] = Unit {0}
  AllAgree (c ∷ cs) = Agrees c × AllAgree cs

  -- The sink has the bytes from the start to an offset.
  pub record Reached (n : ℕ) (s : sink.State) : Type 0 where
    pub reached : start ≤ n
    pub delivered : kept.log s ≡ bytes_from f start (n - start)

  -- The sink has the bytes from the start to the next offset, and what is pending agrees.
  pub record IsFaithful (a : Adapter) : Type 0 where
    pub sent : Reached a.next_offset a.inner
    pub waiting : AllAgree a.pending

  -- The push of a chunk at the next offset failed, and up to it the sink had the bytes from the
  -- start to there.
  pub record IsTorn (a : Adapter) : Type 0 where
    pub before : sink.State
    pub chunk : Chunk sink.Byte
    pub sent : Reached a.next_offset before
    pub agrees : Agrees chunk
    pub next : chunk.offset ≡ a.next_offset
    pub failed : (sink.push before chunk.payload).0 ≡ false
    pub left : a.inner ≡ (sink.push before chunk.payload).1
    pub waiting : AllAgree a.pending

  -- What holds after a call, by its outcome.
  abbrev pub Delivered : Outcome × Adapter → Type 0
  Delivered (accepted, a) = IsFaithful a
  Delivered (duplicate n, a) = IsFaithful a
  Delivered (refused, a) = IsTorn a

  -- A push at the next offset extends what the sink has.
  push_next :
      (n : ℕ) (s : sink.State) (c : Chunk sink.Byte)
      → Reached n s
      → Agrees c
      → c.offset ≡ n
      → (sink.push s c.payload).0 ≡ true
      → Reached (wadd n (length c.payload)) (sink.push s c.payload).1
  push_next n s c v g e p =
      let k = length c.payload in
      let l = v.reached in
      let w : wadd n k ≡ n + k = wadd-eq n k (omega (arith, g.1)) in
      let m : n + k - start ≡ (n - start) + k = omega arith in
      let x : kept.log (sink.push s c.payload).1 ≡ bytes_from f start (n - start) ++ c.payload =
        kept.log-push s c.payload p ∙ ap (λ y. y ++ c.payload) v.delivered in
      let z : c.payload ≡ bytes_from f n k = g.0 ∙ ap (λ o. bytes_from f o k) e in
      let d : kept.log (sink.push s c.payload).1 ≡ bytes_from f start ((n - start) + k) =
        x
        ∙ ap (λ y. bytes_from f start (n - start) ++ y) z
        ∙ bytes_from-append f start (n - start) k n (omega arith) in
      rw w (record { reached = omega arith; delivered = d ∙ ap (bytes_from f start) (sym m) })

  drain-Delivered :
      (cs : List (Chunk sink.Byte)) (a : Adapter)
      → Reached a.next_offset a.inner
      → AllAgree cs
      → Delivered (drain cs a)
  unfolding drain
  drain-Delivered [] a v g = record { sent = v; waiting = tt }
  drain-Delivered (c ∷ cs) a v g = elim (Bool-cases (c.offset == a.next_offset)) [
    | inr e ↦ rw (e, Delivered) (record { sent = v; waiting = g })
    | inl e ↦ elim (push-cases a.inner c.payload) [
      | inl p ↦
          rw (e, p, Delivered)
            (record {
              before = a.inner;
              chunk = c;
              sent = v;
              agrees = g.0;
              next = ground (arith, e);
              failed = p;
              left = refl;
              waiting = g.1;
            })
      | inr p ↦
          let x = push_next a.next_offset a.inner c v g.0 (ground (arith, e)) p in
          rw (e, p) (drain-Delivered cs _ x g.1)
    ]
  ]

  push_and_drain-Delivered :
      (a : Adapter) (c : Chunk sink.Byte)
      → IsFaithful a
      → Agrees c
      → c.offset ≡ a.next_offset
      → Delivered (push_and_drain a c)
  push_and_drain-Delivered a c v g e = elim (push-cases a.inner c.payload) [
    | inl p ↦ rw (push_and_drain-refused a c p) (record {
      before = a.inner;
      chunk = c;
      sent = v.sent;
      agrees = g;
      next = e;
      failed = p;
      left = refl;
      waiting = v.waiting;
    })
    | inr p ↦
        let x = push_next a.next_offset a.inner c v.sent g e p in
        rw (push_and_drain-pushed a c p) (drain-Delivered a.pending _ x v.waiting)
  ]

  insert_pending-AllAgree :
      (c : Chunk sink.Byte) (cs : List (Chunk sink.Byte))
      → Agrees c
      → AllAgree cs
      → AllAgree (insert_pending c cs)
  unfolding insert_pending
  insert_pending-AllAgree c [] g h = (g, tt)
  insert_pending-AllAgree c (d ∷ ds) g h = elim (Bool-cases (ltb c.offset d.offset)) [
    | inl e ↦ rw e (g, h)
    | inr e ↦ rw e (h.0, insert_pending-AllAgree c ds g h.1)
  ]

  -- What is left of a chunk that was delivered in part agrees, and starts at the next offset.
  trim_prefix-Agrees :
      (n : ℕ) (c : Chunk sink.Byte)
      → c.offset ≤ n
      → n - c.offset < length c.payload
      → Agrees c
      → Agrees (trim_prefix (n - c.offset) c) × ((trim_prefix (n - c.offset) c).offset ≡ n)
  unfolding trim_prefix
  trim_prefix-Agrees n c l m g =
      let k = n - c.offset in
      let w : wadd c.offset k ≡ n = wadd-eq c.offset k (omega (arith, g.1)) ∙ omega arith in
      let s : c.offset + k ≡ n = omega arith in
      let d : drop k c.payload ≡ bytes_from f n (length c.payload - k) =
        ap (drop k) g.0
        ∙ drop-bytes_from f c.offset k (length c.payload)
        ∙ ap (λ o. bytes_from f o (length c.payload - k)) s in
      let q : length (drop k c.payload) ≡ length c.payload - k =
        ap length d ∙ length-bytes_from f n (length c.payload - k) in
      ((rw (w, q) d, rw (w, q) (omega (arith, g.1))), w)

  -- Whatever order the chunks of an artifact come in and whatever overlaps: if every chunk holds the
  -- artifact's bytes, then after accept the sink has exactly the bytes from the start to the next
  -- offset, each once and in order; or a push failed, and that was so up to the failed push, which
  -- was of the artifact's bytes from the next offset on.
  pub accept-Delivered :
      (a : Adapter) (c : Chunk sink.Byte) → IsFaithful a → Agrees c → Delivered (accept a c)
  unfolding accept
  accept-Delivered a c v g = elim (Bool-cases (ltb c.offset a.next_offset)) [
    | inl e ↦ elim (Bool-cases (leb (length c.payload) (a.next_offset - c.offset))) [
      | inl x ↦ rw (e, x, Delivered) v
      | inr x ↦
          let y = trim_prefix-Agrees a.next_offset c (ground arith) (ground arith) g in
          rw (e, x) (push_and_drain-Delivered a _ v y.0 y.1)
    ]
    | inr e ↦ elim (Bool-cases (c.offset == a.next_offset)) [
      | inl x ↦ rw (e, x) (push_and_drain-Delivered a c v g (ground arith))
      | inr x ↦ elim (Bool-cases (any (λ d. d.offset == c.offset) a.pending)) [
        | inl y ↦ rw (e, x, y, Delivered) v
        | inr y ↦
            rw (e, x, y)
              (drain-Delivered (insert_pending c a.pending) _ v.sent
                (insert_pending-AllAgree c a.pending g v.waiting))
      ]
    ]
  ]
