-- ===== src/Http/Range/Grammar.antt =====
-- The headers `bytes first-last/complete` that `parse_content_range` reads.
use xde.Prelude.{
  ℕ, ◌+◌, ◌-◌, ◌*◌, ◌≤◌, ◌<◌, ◌≡◌, ◌≢◌, refl, ap, ◌∙◌, true, false, some, [], ◌∷◌, ◌++◌, arith, leb,
  ltb, ◌==◌, u64_max, Bool-cases, inl, inr, is_nil,
}
use xde.Http.Text.{
  Text, codes, is_white, is_digit, trim_start, trim_end, trim, split_once, same_text, parse_digits,
  parse_u64,
}
use xde.Http.Range.{
  ok, strip_unit, parse_complete, parse_ends, parse_span, parse_dash, parse_slash, parse_rest,
  parse_content_range,
}

-- A number in decimal: digits, of which there is one at least.
abbrev pub Digits : Text → Type 0
Digits [] = Unit {0}
Digits (c ∷ s) = (is_digit c ≡ true) × Digits s

-- The number that digits denote after `n`.
abbrev pub value : ℕ → Text → ℕ
value n [] = n
value n (c ∷ s) = value (n * 10 + (c - b'0')) s

value-ge : (n : ℕ) (s : Text) → n ≤ value n s
value-ge n [] = omega arith
value-ge n (c ∷ s) = omega (arith, value-ge (n * 10 + (c - b'0')) s)

parse_digits-value :
    (n : ℕ) (s : Text) → Digits s → value n s ≤ u64_max → parse_digits n s ≡ some (value n s)
unfolding parse_digits
parse_digits-value n [] d h = refl
parse_digits-value n (c ∷ s) d h =
    let next = n * 10 + (c - b'0') in
    let rest = parse_digits-value next s d.1 h in
    let small : leb next u64_max ≡ true = ground (arith, value-ge next s) in rw (d.0, small) rest

parse_u64-value :
    (c : ℕ) (s : Text)
    → Digits (c ∷ s)
    → value 0 (c ∷ s) ≤ u64_max
    → parse_u64 (c ∷ s) ≡ some (value 0 (c ∷ s))
unfolding parse_u64
parse_u64-value c s d h =
    let e : (c == b'+') ≡ false = ground (arith, d.0) in rw e (parse_digits-value 0 (c ∷ s) d h)

-- Text without white space at its ends is not trimmed.
digit-not_white : (c : ℕ) → is_digit c ≡ true → is_white c ≡ false
unfolding is_white
digit-not_white c h = ground arith

is_nil-append : (s t : Text) → is_nil t ≡ false → is_nil (s ++ t) ≡ false
is_nil-append [] t n = n
is_nil-append (c ∷ s) t n = refl

trim_end-append : (s t : Text) → trim_end t ≡ t → is_nil t ≡ false → trim_end (s ++ t) ≡ s ++ t
unfolding trim_end
trim_end-append [] t h n = h
trim_end-append (c ∷ s) t h n =
    let rest = trim_end-append s t h n in
    let e : is_nil (s ++ t) ≡ false = is_nil-append s t n in
    rw (rest, e) (elim (Bool-cases (is_white c)) [ inl w ↦ rw w refl | inr w ↦ rw w refl ])

trim_end-Digits : (s : Text) → Digits s → trim_end s ≡ s
unfolding trim_end
trim_end-Digits [] d = refl
trim_end-Digits (c ∷ s) d = rw (digit-not_white c d.0, trim_end-Digits s d.1) refl

-- No code point of the text is `sep`.
abbrev Without : ℕ → Text → Type 0
Without sep [] = Unit {0}
Without sep (c ∷ s) = ((c == sep) ≡ false) × Without sep s

Digits-Without : (sep : ℕ) (s : Text) → is_digit sep ≡ false → Digits s → Without sep s
Digits-Without sep [] n d = tt
Digits-Without sep (c ∷ s) n d = (ground (arith, d.0), Digits-Without sep s n d.1)

Without-append : (sep : ℕ) (s t : Text) → Without sep s → Without sep t → Without sep (s ++ t)
Without-append sep [] t a b = b
Without-append sep (c ∷ s) t a b = (a.0, Without-append sep s t a.1 b)

split_once-Without :
    (sep : ℕ) (s t : Text) → Without sep s → split_once sep (s ++ sep ∷ t) ≡ some (s, t)
unfolding split_once
split_once-Without sep [] t w = let e : (sep == sep) ≡ true = ground arith in rw e refl
split_once-Without sep (c ∷ s) t w = rw (w.0, split_once-Without sep s t w.1) refl

trim_solid :
    (c : ℕ) (s : Text) → is_white c ≡ false → trim_end (c ∷ s) ≡ c ∷ s → trim (c ∷ s) ≡ c ∷ s
unfolding trim trim_start
trim_solid c s w e = rw w e

trim-Digits : (c : ℕ) (s : Text) → Digits (c ∷ s) → trim (c ∷ s) ≡ c ∷ s
trim-Digits c s d = trim_solid c s (digit-not_white c d.0) (trim_end-Digits (c ∷ s) d)

-- `first-last`, as in a header.
abbrev pub span_text : Text → Text → Text
span_text a b = a ++ b'-' ∷ b

trim-span_text :
    (c d : ℕ) (a b : Text)
    → Digits (c ∷ a)
    → Digits (d ∷ b)
    → trim (span_text (c ∷ a) (d ∷ b)) ≡ span_text (c ∷ a) (d ∷ b)
unfolding trim
trim-span_text c d a b x y = trim_solid c (a ++ b'-' ∷ d ∷ b) (digit-not_white c x.0) (
    trim_end-append (c ∷ a) (b'-' ∷ d ∷ b)
      (trim_end-append (b'-' ∷ []) (d ∷ b) (trim_end-Digits (d ∷ b) y) refl) refl)

-- A header with a complete length.
abbrev pub header : Text → Text → Text → Text
header a b t = codes "bytes " ++ (span_text a b ++ b'/' ∷ t)

trim-header :
    (a b t : Text) (c : ℕ) → Digits (c ∷ t) → trim (header a b (c ∷ t)) ≡ header a b (c ∷ t)
unfolding is_white
trim-header a b t c d = trim_solid b'b' (codes "ytes " ++ (span_text a b ++ b'/' ∷ c ∷ t)) refl (
    trim_end-append (codes "bytes ") (span_text a b ++ b'/' ∷ c ∷ t)
      (trim_end-append (span_text a b) (b'/' ∷ c ∷ t)
        (trim_end-append (b'/' ∷ []) (c ∷ t) (trim_end-Digits (c ∷ t) d) refl) refl)
      (is_nil-append (span_text a b) (b'/' ∷ c ∷ t) refl))

parse_complete-value :
    (c : ℕ) (t : Text)
    → Digits (c ∷ t)
    → value 0 (c ∷ t) ≤ u64_max
    → value 0 (c ∷ t) ≢ 0
    → parse_complete (trim (c ∷ t)) ≡ ok (some (value 0 (c ∷ t)))
unfolding parse_complete
parse_complete-value c t d h z =
    let star : same_text (c ∷ t) (codes "*") ≡ false = ground (arith, d.0) in
    let n : (value 0 (c ∷ t) == 0) ≡ false = ground arith in
    rw (trim-Digits c t d) (rw (star, parse_u64-value c t d h, parse_complete, n) refl)

strip_unit-bytes : (rest : Text) → strip_unit (codes "bytes " ++ rest) ≡ some rest
unfolding strip_unit
strip_unit-bytes rest = refl

parse_rest-some : (rest : Text) → parse_rest (some rest) ≡ parse_slash (split_once b'/' rest)
unfolding parse_rest
parse_rest-some rest = refl

parse_slash-span :
    (x y z : ℕ) (a b t : Text)
    → Digits (x ∷ a)
    → Digits (y ∷ b)
    → parse_slash (some (span_text (x ∷ a) (y ∷ b), z ∷ t)) ≡ parse_span (x ∷ a) (y ∷ b) (z ∷ t)
unfolding parse_slash
parse_slash-span x y z a b t da db =
    let span = span_text (x ∷ a) (y ∷ b) in
    let star : same_text span (codes "*") ≡ false = ground (arith, da.0) in
    let dash : split_once b'-' span ≡ some (x ∷ a, y ∷ b) =
      split_once-Without b'-' (x ∷ a) (y ∷ b) (Digits-Without b'-' (x ∷ a) refl da) in
    rw (trim-span_text x y a b da db) (rw (star, dash) (unfold parse_dash in refl))

parse_span-value :
    (x y z : ℕ) (a b t : Text)
    → Digits (x ∷ a)
    → Digits (y ∷ b)
    → Digits (z ∷ t)
    → value 0 (x ∷ a) ≤ value 0 (y ∷ b)
    → value 0 (y ∷ b) < u64_max
    → value 0 (z ∷ t) ≤ u64_max
    → value 0 (z ∷ t) ≢ 0
    → parse_span (x ∷ a) (y ∷ b) (z ∷ t)
      ≡ ok (record {
        first = value 0 (x ∷ a);
        last = value 0 (y ∷ b);
        complete_length = some (value 0 (z ∷ t));
      })
unfolding parse_span
parse_span-value x y z a b t da db dt le small fits nonzero =
    let p : parse_u64 (trim (x ∷ a)) ≡ some (value 0 (x ∷ a)) =
      ap parse_u64 (trim-Digits x a da) ∙ parse_u64-value x a da (omega arith) in
    let q : parse_u64 (trim (y ∷ b)) ≡ some (value 0 (y ∷ b)) =
      ap parse_u64 (trim-Digits y b db) ∙ parse_u64-value y b db (omega arith) in
    let r = parse_complete-value z t dt fits nonzero in
    let l : ltb (value 0 (y ∷ b)) (value 0 (x ∷ a)) ≡ false = ground arith in
    let m : (value 0 (y ∷ b) == u64_max) ≡ false = ground arith in
    let e : parse_ends (value 0 (x ∷ a)) (value 0 (y ∷ b)) (z ∷ t) ≡ _ =
      (rw (l, m, r, parse_ends) refl) in
    rw (p, q, parse_span) e

-- Where the two ends and the complete length are written in decimal as 64-bit numbers, leading
-- zeros or not, the ends are in order, the last is below 2^64 - 1 and the complete length is not
-- 0, the header is read as these numbers.
pub parse_content_range-header :
    (x y z : ℕ) (a b t : Text)
    → Digits (x ∷ a)
    → Digits (y ∷ b)
    → Digits (z ∷ t)
    → value 0 (x ∷ a) ≤ value 0 (y ∷ b)
    → value 0 (y ∷ b) < u64_max
    → value 0 (z ∷ t) ≤ u64_max
    → value 0 (z ∷ t) ≢ 0
    → parse_content_range (header (x ∷ a) (y ∷ b) (z ∷ t))
      ≡ ok (record {
        first = value 0 (x ∷ a);
        last = value 0 (y ∷ b);
        complete_length = some (value 0 (z ∷ t));
      })
unfolding parse_content_range
parse_content_range-header x y z a b t da db dt le small fits nonzero =
    let span = span_text (x ∷ a) (y ∷ b) in
    let rest = span ++ b'/' ∷ z ∷ t in
    let h = header (x ∷ a) (y ∷ b) (z ∷ t) in
    let unit : strip_unit (trim h) ≡ some rest =
      ap strip_unit (trim-header (x ∷ a) (y ∷ b) t z dt) ∙ strip_unit-bytes rest in
    let slash : split_once b'/' rest ≡ some (span, z ∷ t) = split_once-Without b'/' span (z ∷ t) (
      Without-append b'/' (x ∷ a) (b'-' ∷ y ∷ b) (Digits-Without b'/' (x ∷ a) refl da)
        (refl, Digits-Without b'/' (y ∷ b) refl db)) in
    ap parse_rest unit
    ∙ parse_rest-some rest
    ∙ ap parse_slash slash
    ∙ parse_slash-span x y z a b t da db
    ∙ parse_span-value x y z a b t da db dt le small fits nonzero
