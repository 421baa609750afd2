-- ===== src/Http/Text.antt =====
-- Text as lists of code points, with the operations of `str` that the headers are read with: `trim`,
-- `strip_prefix`, `split_once` and `parse::<u64>`.
use Prim.Native.Char.{code}
use Prim.Native.String.{String}
use xde.Prelude.{
  ◌≡◌, refl, arith, ℕ, ◌+◌, ◌-◌, ◌*◌, Bool, true, false, ◌&&◌, ◌||◌, Option, none, some, List, [],
  ◌∷◌, leb, ◌==◌, if◌then◌else◌, any, is_nil, u64_max,
}

abbrev pub Text : Type 0
Text = List ℕ

abbrev pub codes : String → Text
codes String.[] = []
codes (String.◌∷◌ c s) = code c ∷ codes s

-- The code points with the property `White_Space`.
unfoldable pub is_white : ℕ → Bool
is_white c =
    (leb 9 c && leb c 13)
    || (leb 8192 c && leb c 8202)
    || any (λ w. c == w) (32 ∷ 133 ∷ 160 ∷ 5760 ∷ 8232 ∷ 8233 ∷ 8239 ∷ 8287 ∷ 12288 ∷ [])

unfoldable pub trim_start : Text → Text
trim_start [] = []
trim_start (c ∷ s) = if is_white c then trim_start s else c ∷ s

unfoldable pub trim_end : Text → Text
trim_end [] = []
trim_end (c ∷ s) = let rest = trim_end s in if is_white c && is_nil rest then [] else c ∷ rest

unfoldable pub trim : Text → Text
unfolding trim_start trim_end
trim s = trim_end (trim_start s)

unfoldable pub strip_prefix : Text → Text → Option Text
strip_prefix [] s = some s
strip_prefix (p ∷ ps) [] = none
strip_prefix (p ∷ ps) (c ∷ s) = if p == c then strip_prefix ps s else none

unfoldable pub split_once : ℕ → Text → Option (Text × Text)
split_once sep [] = none
split_once sep (c ∷ s) =
    if c == sep
    then some ([], s)
    else (elim (split_once sep s) [ none ↦ none | some p ↦ some (c ∷ p.0, p.1) ])

abbrev pub same_text : Text → Text → Bool
same_text [] [] = true
same_text [] (d ∷ t) = false
same_text (c ∷ s) [] = false
same_text (c ∷ s) (d ∷ t) = (c == d) && same_text s t

abbrev pub is_digit : ℕ → Bool
is_digit c = leb b'0' c && leb c b'9'

-- The digits read so far make `n`; the multiplication and the addition are checked.
unfoldable pub parse_digits : ℕ → Text → Option ℕ
parse_digits n [] = some n
parse_digits n (c ∷ s) =
    let next = n * 10 + (c - b'0') in
    let rest = parse_digits next s in if is_digit c && leb next u64_max then rest else none

-- A sign `+` may stand before the digits, of which there is one at least.
unfoldable pub parse_u64 : Text → Option ℕ
unfolding parse_digits
parse_u64 [] = none
parse_u64 (c ∷ s) =
    if c == b'+' then (if is_nil s then none else parse_digits 0 s) else parse_digits 0 (c ∷ s)

pub same_text_sound : (a b : Text) → same_text a b ≡ true → a ≡ b
same_text_sound [] [] h = refl
same_text_sound [] (d ∷ b) h = cc h
same_text_sound (c ∷ a) [] h = cc h
same_text_sound (c ∷ a) (d ∷ b) h =
    let e : c ≡ d = ground (arith, h) in
    let t : same_text a b ≡ true = ground (arith, h) in rw (e, same_text_sound a b t) refl

pub same_text_complete : (a : Text) → same_text a a ≡ true
same_text_complete [] = refl
same_text_complete (c ∷ a) = ground (arith, same_text_complete a)
