-- ===== src/Shard/Sink/Attribution.antt =====
-- What a chunk leaves of the bytes that another source wrote.
use xde.Prelude.{
  length-take, length-drop, get_or-take, ◌↔◌, ℕ, zero, suc, ◌+◌, ◌-◌, ◌≤◌, ◌<◌, ◌^◌, ◌≡◌, refl, sym,
  ap, ◌∙◌, true, ◌&&◌, none, List, [], ◌∷◌, arith, length, get_or, drop, wadd, wadd-eq, wsub-eq,
  Bool-cases, inl, inr,
}
use xde.Core.Ranges.{ByteRange, range, len, holds}
use xde.Core.Ranges.Normal.{covers}
use xde.Core.Provenance.{foreign_spans}
use xde.Core.Provenance.Writers.{Ordered, writer_at}
use xde.Core.Provenance.Foreign.{is_foreign, Inside, foreign_spans_lem, foreign_spans-Inside}
use xde.Http.Text.{same_text}
use xde.Shard.Sink.{Artifact, read_back, mine, check_conflicts, check_cross_source}

get_or-drop : (k i j : ℕ) (xs : List ℕ) → j ≡ k + i → get_or (drop k xs) i 0 ≡ get_or xs j 0
get_or-drop zero i j xs e = ap (λ v. get_or xs v 0) (omega (arith, e))
get_or-drop (suc k) i zero xs e = ground (arith, e)
get_or-drop (suc k) i (suc j) [] e = refl
get_or-drop (suc k) i (suc j) (x ∷ xs) e = get_or-drop k i j xs (omega (arith, e))

-- What is read back is the given bytes exactly if the file has them, each at its offset.
read_back-agrees :
    (file : ℕ → ℕ) (start n : ℕ) (ys : List ℕ)
    → same_text (read_back file start n) ys ≡ true
    → (i off : ℕ) → off ≡ start + i
    → i < n
    → file off ≡ get_or ys i 0
unfolding read_back
read_back-agrees file start zero ys e i off h l = ground arith
read_back-agrees file start (suc n) [] e i off h l = ground (arith, e)
read_back-agrees file start (suc n) (y ∷ ys) e zero off h l =
    let here : off ≡ start = omega (arith, h) in ap file here ∙ ground (arith, e)
read_back-agrees file start (suc n) (y ∷ ys) e (suc i) off h l =
    read_back-agrees file (suc start) n ys (ground (arith, e)) i off (omega (arith, h))
      (omega (arith, l))

agrees-read_back :
    (file : ℕ → ℕ) (start n : ℕ) (ys : List ℕ)
    → length ys ≡ n
    → ((i off : ℕ) → off ≡ start + i → i < n → file off ≡ get_or ys i 0)
    → same_text (read_back file start n) ys ≡ true
unfolding read_back
agrees-read_back file start zero [] e h = refl
agrees-read_back file start zero (y ∷ ys) e h = ground (arith, e)
agrees-read_back file start (suc n) [] e h = ground (arith, e)
agrees-read_back file start (suc n) (y ∷ ys) e h = ground (
  arith,
  h 0 start (omega arith) (omega arith),
  agrees-read_back file (suc start) n ys (omega (arith, e))
      (λ i off p l. h (suc i) off (omega (arith, p)) (omega (arith, l))),
)

-- The bytes of the conflicts are the same in the file and in the chunk.
abbrev Agree : (ℕ → ℕ) → ℕ → List ℕ → List ByteRange → Type 0
Agree file offset bytes cs =
    (off : ℕ) → covers cs off ≡ true → file off ≡ get_or bytes (off - offset) 0

len-eq : (c : ByteRange) → c.start ≤ c.end → c.end < 2 ^ 64 → len c ≡ c.end - c.start
unfolding len
len-eq c l m = wsub-eq c.end c.start l m

length-mine :
    (offset : ℕ) (bytes : List ℕ) (c : ByteRange)
    → offset ≤ c.start
    → c.start < c.end
    → c.end ≤ offset + length bytes
    → offset + length bytes < 2 ^ 64
    → length (mine offset bytes c) ≡ len c
unfolding mine
length-mine offset bytes c l m n b =
    let k = length-drop (c.start - offset) bytes in
    let w = len-eq c (omega (arith, m)) (omega (arith, n, b)) in
    length-take (len c) (drop (c.start - offset) bytes) (omega (arith, k, l, m, n, w))

get_or-mine :
    (offset : ℕ) (bytes : List ℕ) (c : ByteRange) (i : ℕ)
    → offset ≤ c.start
    → i < len c
    → get_or (mine offset bytes c) i 0 ≡ get_or bytes (c.start + i - offset) 0
unfolding mine
get_or-mine offset bytes c i l m =
    get_or-take (len c) i (drop (c.start - offset) bytes) 0 m
    ∙ get_or-drop (c.start - offset) i (c.start + i - offset) bytes (omega (arith, l))

-- A conflict that is read back as the chunk has it agrees at each of its offsets.
pub conflict-agrees_at :
    (file : ℕ → ℕ) (offset : ℕ) (bytes : List ℕ) (c : ByteRange) (off : ℕ)
    → offset ≤ c.start
    → c.start < c.end
    → c.end < 2 ^ 64
    → same_text (read_back file c.start (len c)) (mine offset bytes c) ≡ true
    → holds c off ≡ true
    → file off ≡ get_or bytes (off - offset) 0
conflict-agrees_at file offset bytes c off l m n e f =
    let w = len-eq c (omega (arith, m)) n in
    let i : off - c.start < len c = ground (arith, f, w) in
    let at : c.start + (off - c.start) ≡ off = ground (arith, f) in
    read_back-agrees file c.start (len c) (mine offset bytes c) e (off - c.start) off (sym at) i
    ∙ get_or-mine offset bytes c (off - c.start) l i
    ∙ rw at refl

conflict-agrees :
    (file : ℕ → ℕ) (offset : ℕ) (bytes : List ℕ) (c : ByteRange) (cs : List ByteRange)
    → offset ≤ c.start
    → c.start < c.end
    → c.end < 2 ^ 64
    → same_text (read_back file c.start (len c)) (mine offset bytes c) ≡ true
    → Agree file offset bytes cs
    → Agree file offset bytes (c ∷ cs)
conflict-agrees file offset bytes c cs l m n e h off k = elim (Bool-cases (holds c off)) [
  | inr f ↦ h off (ground (arith, k, f))
  | inl f ↦ conflict-agrees_at file offset bytes c off l m n e f
]

agrees-conflict :
    (file : ℕ → ℕ) (offset : ℕ) (bytes : List ℕ) (c : ByteRange) (cs : List ByteRange)
    → offset ≤ c.start
    → c.start < c.end
    → c.end ≤ offset + length bytes
    → offset + length bytes < 2 ^ 64
    → Agree file offset bytes (c ∷ cs)
    → same_text (read_back file c.start (len c)) (mine offset bytes c) ≡ true
agrees-conflict file offset bytes c cs l m n b h =
    let w = len-eq c (omega (arith, m)) (omega (arith, n, b)) in
    agrees-read_back file c.start (len c) (mine offset bytes c) (length-mine offset bytes c l m n b)
      (λ i off p k.
        h off (ground (arith, w, p, k)) ∙ (rw p refl ∙ sym (get_or-mine offset bytes c i l k)))

-- The loop ends without a mismatch exactly if all conflicts agree.
check_conflicts_iff :
    (file : ℕ → ℕ) (offset : ℕ) (bytes : List ℕ) (cs : List ByteRange)
    → offset + length bytes < 2 ^ 64
    → Inside (range offset (offset + length bytes)) cs
    → (check_conflicts file offset bytes cs ≡ none) ↔ Agree file offset bytes cs
unfolding check_conflicts
check_conflicts_iff file offset bytes [] b i = (λ h off e. ground (arith, e), λ h. refl)
check_conflicts_iff file offset bytes (c ∷ cs) b i =
    let rest = check_conflicts_iff file offset bytes cs b i.1 in
    elim (Bool-cases (same_text (read_back file c.start (len c)) (mine offset bytes c))) [
      | inl e ↦ (
        λ h.
            conflict-agrees file offset bytes c cs i.0.0 i.0.1 (omega (arith, i.0.2, b)) e
              (rest.0 (sym (rw e refl) ∙ h)),
        λ h. rw e (rest.1 (λ off k. h off (ground (arith, k)))),
      )
      | inr e ↦ (
        λ h. ground (arith, h, e),
        λ h. ground (arith, agrees-conflict file offset bytes c cs i.0.0 i.0.1 i.0.2 b h, e),
      )
    ]

-- The check of a chunk that ends below 2^64 passes exactly if two sources have not written yet, or
-- the chunk has the bytes of the file at every offset that another source wrote first.
pub check_cross_source_iff :
    (a : Artifact) (source offset : ℕ) (bytes : List ℕ)
    → Ordered 0 a.provenance.spans
    → offset + length bytes < 2 ^ 64
    → (check_cross_source a source offset bytes ≡ none) ↔ (
        (off : ℕ)
        → (a.provenance.multi_writer
            && holds (range offset (offset + length bytes)) off
            && is_foreign (writer_at a.provenance.spans off) source)
          ≡ true
        → a.file off ≡ get_or bytes (off - offset) 0)
unfolding check_cross_source
check_cross_source_iff a source offset bytes o b =
    let r = range offset (offset + length bytes) in
    let e : wadd offset (length bytes) ≡ offset + length bytes = wadd-eq offset (length bytes) b in
    let all =
      check_conflicts_iff a.file offset bytes (foreign_spans a.provenance r source) b
        (foreign_spans-Inside a.provenance r source) in
    (
      λ h off k.
          all.0 (sym (rw e refl) ∙ h) off (foreign_spans_lem a.provenance r source off o ∙ k),
      λ h. rw e (all.1 (λ off k. h off (sym (foreign_spans_lem a.provenance r source off o) ∙ k))),
    )
