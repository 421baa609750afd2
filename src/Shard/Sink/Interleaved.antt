-- ===== src/Shard/Sink/Interleaved.antt =====
-- Chunks that several sinks accept at the same time.
use xde.Prelude.{
  ℕ, ◌+◌, ◌-◌, ◌<◌, ◌^◌, ◌≡◌, refl, sym, ◌∙◌, true, false, List, [], ◌∷◌, arith, length, get_or,
  wadd, wadd-eq, Bool-cases, inl, inr, ◌⊎◌,
}
use xde.Core.Ranges.{ByteRange, len, holds}
use xde.Core.Ranges.Normal.{covers}
use xde.Core.Provenance.Writers.{Ordered, writer_at}
use xde.Core.Provenance.Foreign.{is_foreign, Inside, foreign_spans_lem, foreign_spans-Inside}
use xde.Http.Text.{same_text}
use xde.Shard.Sink.{
  Artifact, Delivery, Call, entered, listing, comparing, writing, recording, accepted,
  overlap_mismatch, read_back, mine, accept_step,
}
use xde.Shard.Sink.Attribution.{conflict-agrees_at}
use xde.Shard.Sink.Foreign.{
  extent, write_chunk-inside, Foreign, record_written-Foreign, other-Foreign,
}

-- A delivery whose chunk shares no byte with the one of `d`, and ends below 2^64.
abbrev pub ApartFrom : Delivery → Delivery → Type 0
ApartFrom d e =
    (e.offset + length e.bytes < 2 ^ 64)
    × ((off : ℕ) → holds (extent d) off ≡ true → holds (extent e) off ≡ false)

-- A call of `accept` for `d`, from one artifact and state of the call to another: between its own
-- accesses, any other calls have accesses, in any state, for chunks that lie apart.
pub data Run (d : Delivery) : Artifact → Call → Artifact → Call → Type 0 where
  done : (a : Artifact) (k : Call) → Run d a k a k
  own :
      (a b : Artifact) (k l : Call)
      → Run d (accept_step d a k).0 (accept_step d a k).1 b l
      → Run d a k b l
  other :
      (e : Delivery) (m : Call) (a b : Artifact) (k l : Call)
      → ApartFrom d e
      → Run d (accept_step e a m).0 k b l
      → Run d a k b l

-- The byte of a chunk at an offset of the file.
abbrev pub byte_at : Delivery → ℕ → ℕ
byte_at d off = get_or d.bytes (off - d.offset) 0

-- What a call knows of the byte: it is still to be compared, or the chunk has the same.
abbrev Known : Delivery → ℕ → ℕ → Call → Type 0
Known d off v entered = Unit {0}
Known d off v listing = Unit {0}
Known d off v (comparing cs) = Inside (extent d) cs × ((covers cs off ≡ true) ⊎ (v ≡ byte_at d off))
Known d off v writing = v ≡ byte_at d off
Known d off v recording = v ≡ byte_at d off
Known d off v accepted = v ≡ byte_at d off
Known d off v (overlap_mismatch at) = Unit {0}

-- A call that has gone on to write has a chunk with that byte.
abbrev pub Passed : Delivery → ℕ → ℕ → Call → Type 0
Passed d off v writing = byte_at d off ≡ v
Passed d off v recording = byte_at d off ≡ v
Passed d off v accepted = byte_at d off ≡ v
Passed d off v k = Unit {0}

Known-Passed : (d : Delivery) (off v : ℕ) (k : Call) → Known d off v k → Passed d off v k
Known-Passed d off v entered g = tt
Known-Passed d off v listing g = tt
Known-Passed d off v (comparing cs) g = tt
Known-Passed d off v writing g = sym g
Known-Passed d off v recording g = sym g
Known-Passed d off v accepted g = sym g
Known-Passed d off v (overlap_mismatch at) g = tt

compared-Known :
    (d : Delivery) (off v : ℕ) (a : Artifact) (c : ByteRange) (cs : List ByteRange)
    → d.offset + length d.bytes < 2 ^ 64
    → a.file off ≡ v
    → same_text (read_back a.file c.start (len c)) (mine d.offset d.bytes c) ≡ true
    → Known d off v (comparing (c ∷ cs))
    → Known d off v (comparing cs)
compared-Known d off v a c cs b h e (i, inr k) = (i.1, inr k)
compared-Known d off v a c cs b h e (i, inl k) = (
  i.1,
  elim (Bool-cases (holds c off)) [
    | inr f ↦ inl (ground (arith, k, f))
    | inl f ↦ inr (
        sym h
        ∙ conflict-agrees_at a.file d.offset d.bytes c off i.0.0 i.0.1 (omega (arith, i.0.2, b)) e
            f)
  ],
)

-- The call's own access keeps the byte and what the call knows of it.
own-Foreign :
    (d : Delivery) (off v : ℕ) (a : Artifact) (k : Call)
    → d.offset + length d.bytes < 2 ^ 64
    → holds (extent d) off ≡ true
    → Foreign d.source off v a
    → Known d off v k
    → Foreign d.source off v (accept_step d a k).0 × Known d off v (accept_step d a k).1
unfolding accept_step
own-Foreign d off v a entered b h f g = (f, rw (f.mixed, Known) tt)
own-Foreign d off v a listing b h f g =
    let e : wadd d.offset (length d.bytes) ≡ d.offset + length d.bytes =
      wadd-eq d.offset (length d.bytes) b in
    let listed = foreign_spans_lem a.provenance (extent d) d.source off f.ordered in
    (
      f,
      rw e (
        foreign_spans-Inside a.provenance (extent d) d.source,
        inl (listed ∙ ground (arith, h, f.mixed, f.foreign)),
      ),
    )
own-Foreign d off v a (comparing []) b h f (i, inl k) = cc k
own-Foreign d off v a (comparing []) b h f (i, inr k) = (f, k)
own-Foreign d off v a (comparing (c ∷ cs)) b h f g =
    elim (Bool-cases (same_text (read_back a.file c.start (len c)) (mine d.offset d.bytes c))) [
      | inl e ↦ (f, rw (e, Known) (compared-Known d off v a c cs b f.value e g))
      | inr e ↦ (f, rw (e, Known) tt)
    ]
own-Foreign d off v a writing b h f g = (
  record {
    ordered = f.ordered;
    mixed = f.mixed;
    foreign = f.foreign;
    value = write_chunk-inside a.file d.offset d.bytes off h ∙ sym g;
  },
  g,
)
own-Foreign d off v a recording b h f g =
    (record_written-Foreign d.source off v d.source d.offset (length d.bytes) a f, g)
own-Foreign d off v a accepted b h f g = (f, g)
own-Foreign d off v a (overlap_mismatch at) b h f g = (f, tt)

Run-Foreign :
    (d : Delivery) (off v : ℕ) {a b : Artifact} {k l : Call}
    → d.offset + length d.bytes < 2 ^ 64
    → holds (extent d) off ≡ true
    → Foreign d.source off v a
    → Known d off v k
    → Run d a k b l
    → Foreign d.source off v b × Known d off v l
Run-Foreign d off v b h f g (done _ _) = (f, g)
Run-Foreign d off v b h f g (own a _ k _ r) =
    let s = own-Foreign d off v a k b h f g in Run-Foreign d off v b h s.0 s.1 r
Run-Foreign d off v b h f g (other e m a _ _ _ p r) =
    Run-Foreign d off v b h (other-Foreign d.source off v e m a (p.1 off h) f) g r

-- However the accesses of other sinks fall between those of a call of accept, if the chunks of the
-- others share no byte with its own and all chunks end below 2^64: once two sources have written,
-- every byte of the chunk that another source wrote first stays as it is and stays foreign, at every
-- point of the call, and a call that goes on to write has a chunk with that byte.
pub Run-accept-foreign :
    (d : Delivery) (a b : Artifact) (k : Call) (off : ℕ)
    → Ordered 0 a.provenance.spans
    → d.offset + length d.bytes < 2 ^ 64
    → holds (extent d) off ≡ true
    → a.provenance.multi_writer ≡ true
    → is_foreign (writer_at a.provenance.spans off) d.source ≡ true
    → Run d a entered b k
    → (b.file off ≡ a.file off)
      × (is_foreign (writer_at b.provenance.spans off) d.source ≡ true)
      × Passed d off (a.file off) k
Run-accept-foreign d a b k off o l h m f r =
    let kept =
      Run-Foreign d off (a.file off) l h
        (record { ordered = o; mixed = m; foreign = f; value = refl }) tt r in
    (kept.0.value, kept.0.foreign, Known-Passed d off (a.file off) k kept.1)
