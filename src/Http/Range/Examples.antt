-- ===== src/Http/Range/Examples.antt =====
-- Headers as a server sends them, and the theorems applied there.
use xde.Prelude.{◌≡◌, refl, some, [], ◌∷◌, arith}
use xde.Core.Ranges.{range}
use xde.Http.Text.{codes, is_white}
use xde.Http.Range.{
  ContentRange, ok, err, unsupported_unit, last_before_first, unsatisfied, validate_against,
  parse_content_range,
}
use xde.Http.Range.Reading.{Reads, parse_content_range-Reads}
use xde.Http.Range.Grammar.{header, value, parse_content_range-header}

abbrev a_header : ContentRange
a_header = record { first = 0; last = 1023; complete_length = some 146515 }

parse_test : parse_content_range (codes "  bytes 0-1023/146515 ") ≡ ok a_header
unfolding parse_content_range is_white
parse_test = refl

unsatisfied_test : parse_content_range (codes "bytes */146515") ≡ err (unsatisfied (some 146515))
unfolding parse_content_range is_white
unsatisfied_test = refl

unit_test : parse_content_range (codes "items 0-1/2") ≡ err unsupported_unit
unfolding parse_content_range is_white
unit_test = refl

order_test : parse_content_range (codes "bytes 100-50/200") ≡ err last_before_first
unfolding parse_content_range is_white
order_test = refl

-- The equals sign is read as the space, and a plus sign may stand before a number.
lenient_test : parse_content_range (codes "bytes=+0 - 1023 / 146515") ≡ ok a_header
unfolding parse_content_range is_white
lenient_test = refl

parse_content_range-header_example :
    parse_content_range (header (b'0' ∷ []) (b'9' ∷ []) (b'1' ∷ b'6' ∷ []))
    ≡ ok (record {
      first = value 0 (b'0' ∷ []);
      last = value 0 (b'9' ∷ []);
      complete_length = some (value 0 (b'1' ∷ b'6' ∷ []));
    })
parse_content_range-header_example =
    parse_content_range-header b'0' b'9' b'1' [] [] (b'6' ∷ []) (refl, tt) (refl, tt)
      (refl, (refl, tt)) (omega arith) (omega arith) (omega arith) (λ e. omega arith)

parse_content_range-Reads_example : Reads (codes "  bytes 0-1023/146515 ") a_header
parse_content_range-Reads_example =
    parse_content_range-Reads (codes "  bytes 0-1023/146515 ") a_header parse_test

validate_test : validate_against a_header (range 0 2000) ≡ ok tt
unfolding validate_against
validate_test = refl
