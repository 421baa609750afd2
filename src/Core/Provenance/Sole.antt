-- ===== src/Core/Provenance/Sole.antt =====
-- The flag that two sources have written.
use xde.Prelude.{
  ℕ, ◌≡◌, refl, sym, ◌∙◌, Bool, false, not, ◌||◌, Option, none, some, arith, ◌==◌, Bool-cases, inl,
  inr,
}
use xde.Core.Ranges.{ByteRange, is_empty, holds}
use xde.Core.Provenance.{ArtifactProvenance, record_write}
use xde.Core.Provenance.Writers.{Ordered, writer_at}
use xde.Core.Provenance.Record.{first_writer_of, record_write_lem}

-- As long as one source wrote alone, it wrote every byte first.
abbrev pub SoleWriter : ArtifactProvenance → Type 0
SoleWriter p =
    (off w : ℕ) → p.multi_writer ≡ false → writer_at p.spans off ≡ some w → p.first_writer ≡ some w

sole_step :
    (f : Option ℕ) (m : Bool) (q : Option ℕ) (c : Bool) (source w : ℕ)
    → ((u : ℕ) → m ≡ false → q ≡ some u → f ≡ some u)
    → (elim f [ none ↦ m | some v ↦ m || not (v == source) ]) ≡ false
    → first_writer_of q c source ≡ some w
    → (elim f [ none ↦ some source | some v ↦ some v ]) ≡ some w
sole_step none m none c source w h e k = ground (arith, k)
sole_step none m (some u) c source w h e k = cc (h u e refl)
sole_step (some v) m none c source w h e k = ground (arith, e, k)
sole_step (some v) m (some u) c source w h e k = h u (ground (arith, e)) refl ∙ k

-- Recording a write on spans in order keeps this: as long as one source wrote alone, every byte
-- with a writer has the first writer.
pub record_write-SoleWriter :
    (p : ArtifactProvenance) (r : ByteRange) (source : ℕ)
    → Ordered 0 p.spans
    → SoleWriter p
    → SoleWriter (record_write p r source)
unfolding record_write
record_write-SoleWriter p r source o h off w e k = elim (Bool-cases (is_empty r)) [
  | inl f ↦ rw f (h off w (sym (rw f refl) ∙ e) (sym (rw f refl) ∙ k))
  | inr f ↦ rw f (
      sole_step p.first_writer p.multi_writer (writer_at p.spans off) (holds r off) source w (h off)
        (sym (rw f refl) ∙ e) (sym ((record_write_lem p r source o).1 off) ∙ k))
]
