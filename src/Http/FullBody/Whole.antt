-- ===== src/Http/FullBody/Whole.antt =====
-- What is fetched of a body without a range.
use mathlib.Core.List.{append_assoc, append-nil}
use mathlib.Core.Path.{subst}
use xde.Prelude.{
  length-take, length-drop, take-append-drop, ℕ, zero, suc, ◌≤◌, ◌<◌, ◌≡◌, refl, sym, ap, ◌∙◌, inl,
  inr, Bool, true, false, Option, none, some, List, [], ◌∷◌, ◌++◌, ltb, ◌==◌, if◌then◌else◌, length,
  take, drop, arith, Bool-cases, length-append,
}
use xde.Http.Fetch.Rounds.{got, InPlace, got-append, InPlace-append}
use xde.Http.Fetch.Whole.{joined}
use xde.Http.FullBody.{
  FullBodyFetch, Position, amount_of, next_chunk, advance, deliver_loop, deliver_frames,
  FullBodyFetched, completed, oversized, premature_eof, failed, conclude, fetch_full_body,
}

-- The chunks follow each other from the start and hold the bytes so far.
abbrev Holds : List ℕ → Position → Type 0
Holds seen p = InPlace 0 p.chunks × (got p.chunks ≡ seen) × (p.offset ≡ length seen)

-- A delivery that did not fail.
abbrev HoldsAll : List ℕ → Option Position → Type 0
HoldsAll seen none = Unit {0}
HoldsAll seen (some p) = Holds seen p

advance-Holds :
    (f : FullBodyFetch) (bytes seen : List ℕ) (p : Position)
    → Holds seen p
    → Holds (seen ++ take (amount_of f bytes) bytes) (advance f bytes p)
advance-Holds f bytes seen p h =
    let c = next_chunk f bytes p in
    let n = length-take (amount_of f bytes) bytes (omega arith) in
    let size = ap (λ xs. length xs) h.1 in
    (
      InPlace-append 0 p.chunks c h.0 (omega (arith, h.2, size)),
      got-append p.chunks c ∙ ap (λ xs. xs ++ take (amount_of f bytes) bytes) h.1,
      omega (arith, h.2, n, length-append seen (take (amount_of f bytes) bytes)),
    )

if-HoldsAll :
    (all : List ℕ) (b : Bool) (m : Option Position)
    → HoldsAll all m
    → HoldsAll all (if b then m else none)
if-HoldsAll all true m h = h
if-HoldsAll all false m h = tt

deliver_loop-HoldsAll :
    (f : FullBodyFetch) (fuel : ℕ) (bytes seen all : List ℕ) (p : Position)
    → 1 ≤ f.memory_limit
    → 1 ≤ f.max_chunk_size
    → Holds seen p
    → length bytes ≤ fuel
    → seen ++ bytes ≡ all
    → HoldsAll all (deliver_loop f fuel bytes p)
unfolding deliver_loop
deliver_loop-HoldsAll f fuel [] seen all p i j h l e =
    subst (λ xs. Holds xs p) (sym (append-nil seen) ∙ e) h
deliver_loop-HoldsAll f zero (b ∷ bs) seen all p i j h l e = ground (arith, l)
deliver_loop-HoldsAll f (suc fuel) (b ∷ bs) seen all p i j h l e =
    let bytes = b ∷ bs in
    let n = amount_of f bytes in
    let rest = drop n bytes in
    let whole : (seen ++ take n bytes) ++ rest ≡ all =
      append_assoc seen (take n bytes) rest
      ∙ (ap (λ xs. seen ++ xs) (take-append-drop n bytes) ∙ e) in
    if-HoldsAll all (f.accepts p.chunks (next_chunk f bytes p))
      (deliver_loop f fuel rest (advance f bytes p))
      (deliver_loop-HoldsAll f fuel rest (seen ++ take n bytes) all (advance f bytes p) i j
        (advance-Holds f bytes seen p h) (omega (arith, length-drop n bytes, i, j, l)) whole)

deliver_frames-HoldsAll :
    (f : FullBodyFetch) (frames : List (List ℕ)) (seen : List ℕ) (p : Position)
    → 1 ≤ f.memory_limit
    → 1 ≤ f.max_chunk_size
    → Holds seen p
    → HoldsAll (seen ++ joined frames) (deliver_frames f frames p)
unfolding deliver_frames
deliver_frames-HoldsAll f [] seen p i j h = subst (λ xs. Holds xs p) (sym (append-nil seen)) h
deliver_frames-HoldsAll f (bytes ∷ frames) seen p i j h =
    frame (λ q. deliver_frames-HoldsAll f frames (seen ++ bytes) q i j)
      (deliver_loop f (length bytes) bytes p)
      (deliver_loop-HoldsAll f (length bytes) bytes seen (seen ++ bytes) p i j h (omega arith) refl)
  where
    frame :
        ((q : Position)
          → Holds (seen ++ bytes) q
          → HoldsAll ((seen ++ bytes) ++ joined frames) (deliver_frames f frames q))
        → (m : Option Position) → HoldsAll (seen ++ bytes) m
        → HoldsAll
            (seen ++ (bytes ++ joined frames))
            (elim m [ none ↦ none | some q ↦ deliver_frames f frames q ])
    frame go none k = tt
    frame go (some q) k =
        subst (λ xs. HoldsAll xs (deliver_frames f frames q))
          (append_assoc seen bytes (joined frames)) (go q k)

-- What an outcome says about the body and the declared length. A completed fetch has chunks in
-- place that hold exactly the bytes of the body, as many as were declared; one that is rejected has
-- a declared length, and the body is longer, or shorter.
abbrev pub Outcome : Option ℕ → List ℕ → FullBodyFetched → Type 0
Outcome expected body (completed q) =
    InPlace 0 q.chunks
    × (got q.chunks ≡ body)
    × (elim expected [ none ↦ Unit {0} | some n ↦ length body ≡ n ])
Outcome expected body (oversized received n) = (expected ≡ some n) × (n < length body)
Outcome expected body (premature_eof received n) = (expected ≡ some n) × (length body < n)
Outcome expected body failed = Unit {0}

conclude-Outcome :
    (expected : Option ℕ) (body : List ℕ) (m : Option Position)
    → HoldsAll body m
    → Outcome expected body (conclude expected m)
unfolding conclude
conclude-Outcome expected body none h = tt
conclude-Outcome none body (some p) h = (h.0, h.1, tt)
conclude-Outcome (some n) body (some p) h = elim (Bool-cases (p.offset == n)) [
  | inl e ↦ rw (e, Outcome) (h.0, h.1, ground (arith, e, h.2))
  | inr e ↦ elim (Bool-cases (ltb n p.offset)) [
    | inl k ↦ rw (e, k, Outcome) (refl, ground (arith, k, h.2))
    | inr k ↦ rw (e, k, Outcome) (refl, ground (arith, e, k, h.2))
  ]
]

-- For a positive memory limit and a positive chunk size, fetching a full body ends as one of
-- these: completed, with chunks in place from offset 0 that hold exactly the bytes of the body, as
-- many as were declared; rejected as oversized, and it is longer than was declared; rejected as
-- premature, and it is shorter; or failed by the sink.
pub fetch_full_body-Outcome :
    (f : FullBodyFetch) (expected : Option ℕ) (frames : List (List ℕ))
    → 1 ≤ f.memory_limit
    → 1 ≤ f.max_chunk_size
    → Outcome expected (joined frames) (fetch_full_body f expected frames)
unfolding fetch_full_body
fetch_full_body-Outcome f expected frames i j =
    conclude-Outcome expected (joined frames) _ (
      deliver_frames-HoldsAll f frames [] (record { offset = 0; chunks = [] }) i j (tt, refl, refl))
