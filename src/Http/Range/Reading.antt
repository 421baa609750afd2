-- ===== src/Http/Range/Reading.antt =====
-- What a text looks like that `parse_content_range` accepts.
use xde.Prelude.{
  ℕ, ◌≤◌, ◌<◌, ◌≡◌, ◌≢◌, refl, ◌⊎◌, Option, none, some, ◌∷◌, ◌++◌, arith, ltb, ◌==◌, u64_max,
  Bool-cases, Option-cases, inl, inr,
}
use xde.Http.Text.{Text, codes, trim, split_once, same_text, parse_u64}
use xde.Http.Range.{
  ContentRange, Checked, ok, err, strip_unit, parse_complete, parse_ends, parse_span, parse_dash,
  parse_slash, parse_rest, parse_content_range,
}
use xde.Http.Range.Pieces.{
  Denotes, parse_u64-Denotes, split_once_sound, strip_unit_sound, Complete, Holds, Holds-map,
  parse_complete-Complete,
}

-- What is made of the two ends and of the text after the slash.
record Ends (first last : ℕ) (total : Text) (c : ContentRange) : Type 0 where
  starts : c.first ≡ first
  ends : c.last ≡ last
  ordered : first ≤ last
  small : last ≢ u64_max
  complete : Complete (trim total) c.complete_length

parse_ends-Ends :
    (first last : ℕ) (total : Text) → Holds (Ends first last total) (parse_ends first last total)
unfolding parse_ends
parse_ends-Ends first last total = elim (Bool-cases (ltb last first)) [
  | inl a ↦ rw (a, Holds) tt
  | inr a ↦ elim (Bool-cases (last == u64_max)) [
    | inl b ↦ rw (a, b, Holds) tt
    | inr b ↦
        rw (a, b)
          (result (ground (arith, a)) (ground (arith, b)) (parse_complete (trim total))
            (parse_complete-Complete (trim total)))
  ]
]
  where
    result :
        first ≤ last
        → last ≢ u64_max
        → (m : Checked (Option ℕ)) → Holds (Complete (trim total)) m
        → Holds (Ends first last total) (elim m [
          | err e ↦ err e
          | ok c ↦ ok (record { first = first; last = last; complete_length = c })
        ])
    result l k (err e) h = tt
    result l k (ok c) h = record {
      starts = refl;
      ends = refl;
      ordered = l;
      small = k;
      complete = h;
    }

-- The two ends and the complete length, each read from its text.
pub record Spelled (a b t : Text) (c : ContentRange) : Type 0 where
  pub first_spelled : Denotes (trim a) c.first
  pub last_spelled : Denotes (trim b) c.last
  pub complete_spelled : Complete (trim t) c.complete_length
  pub ordered : c.first ≤ c.last
  pub small : c.last < u64_max

Ends-Spelled :
    (a b t : Text) (first last : ℕ) (c : ContentRange)
    → Denotes (trim a) first
    → Denotes (trim b) last
    → Ends first last t c
    → Spelled a b t c
Ends-Spelled a b t first last c x y e =
    let l : c.last ≤ u64_max = rw e.ends y.bound in
    record {
      first_spelled = rw e.starts x;
      last_spelled = rw e.ends y;
      complete_spelled = e.complete;
      ordered = rw (e.starts, e.ends) e.ordered;
      small = rw e.ends (strict last y.bound e.small);
    }
  where
    strict : (n : ℕ) → n ≤ u64_max → n ≢ u64_max → n < u64_max
    strict n l m = ground arith

parse_span-Spelled : (a b t : Text) → Holds (Spelled a b t) (parse_span a b t)
unfolding parse_span
parse_span-Spelled a b t = elim (Option-cases (parse_u64 (trim a))) [
  | inl n ↦ rw (n, parse_span) tt
  | inr (x, n) ↦ elim (Option-cases (parse_u64 (trim b))) [
    | inl m ↦ rw (n, m, parse_span) tt
    | inr (y, m) ↦
        rw (n, m, parse_span)
          (Holds-map (Ends x y t) (Spelled a b t) (parse_ends x y t)
            (λ c e.
              Ends-Spelled a b t x y c (parse_u64-Denotes (trim a) x n)
                (parse_u64-Denotes (trim b) y m) e)
            (parse_ends-Ends x y t))
  ]
]

-- The text behind the unit: two numbers around a dash, and a complete length behind a slash.
pub record Split (rest : Text) (c : ContentRange) : Type 0 where
  pub span : Text
  pub a : Text
  pub b : Text
  pub t : Text
  pub slash : rest ≡ span ++ b'/' ∷ t
  pub dash : trim span ≡ a ++ b'-' ∷ b
  pub spelled : Spelled a b t c

parse_dash-Split :
    (rest span t : Text) (o : Option (Text × Text))
    → rest ≡ span ++ b'/' ∷ t
    → split_once b'-' (trim span) ≡ o
    → Holds (Split rest) (parse_dash o t)
unfolding parse_dash
parse_dash-Split rest span t none e h = tt
parse_dash-Split rest span t (some q) e h =
    Holds-map (Spelled q.0 q.1 t) (Split rest) (parse_span q.0 q.1 t)
      (λ c s. record {
        span = span;
        a = q.0;
        b = q.1;
        t = t;
        slash = e;
        dash = split_once_sound b'-' (trim span) q.0 q.1 h;
        spelled = s;
      })
      (parse_span-Spelled q.0 q.1 t)

parse_slash-Split :
    (rest : Text) (o : Option (Text × Text))
    → split_once b'/' rest ≡ o
    → Holds (Split rest) (parse_slash o)
unfolding parse_slash
parse_slash-Split rest none h = tt
parse_slash-Split rest (some p) h = elim (Bool-cases (same_text (trim p.0) (codes "*"))) [
  | inl s ↦ rw (s, Holds) tt
  | inr s ↦ rw s (
      parse_dash-Split rest p.0 p.1 (split_once b'-' (trim p.0))
        (split_once_sound b'/' rest p.0 p.1 h) refl)
]

-- The unit and what is behind it.
pub record Reads (v : Text) (c : ContentRange) : Type 0 where
  pub rest : Text
  pub unit : (trim v ≡ codes "bytes " ++ rest) ⊎ (trim v ≡ codes "bytes=" ++ rest)
  pub split : Split rest c

parse_rest-Reads :
    (v : Text) (o : Option Text) → strip_unit (trim v) ≡ o → Holds (Reads v) (parse_rest o)
unfolding parse_rest
parse_rest-Reads v none h = tt
parse_rest-Reads v (some rest) h =
    Holds-map (Split rest) (Reads v) (parse_slash (split_once b'/' rest))
      (λ c s. record { rest = rest; unit = strip_unit_sound (trim v) rest h; split = s })
      (parse_slash-Split rest (split_once b'/' rest) refl)

-- A text that is accepted is, blanks at the ends of it and of its pieces aside, the unit `bytes`
-- with a space or an equals sign, two decimal numbers with a dash between, and behind a slash a star
-- or a third one. A plus sign may stand before a number. The numbers are those of the header and fit
-- into 64 bits, the ends are in order, the last is below 2^64 - 1 and the third is not 0.
pub parse_content_range-Reads :
    (v : Text) (c : ContentRange) → parse_content_range v ≡ ok c → Reads v c
unfolding parse_content_range
parse_content_range-Reads v c h = rw h at read
  where
    read : Holds (Reads v) (parse_content_range v)
    read = parse_rest-Reads v (strip_unit (trim v)) refl
