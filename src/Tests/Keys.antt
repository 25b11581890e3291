-- ===== src/Tests/Keys.antt =====
-- internal/status/prefix.go: the label of Ctrl-B and a key that is written as a number.
use gozellij.Prelude.{
  ℕ, ◌-◌, ◌≤◌, ◌≡◌, refl, ◌&&◌, Option, none, some, List, [], ◌∷◌, map, arith, leb, if◌then◌else◌,
}
use gozellij.PrefixKey.{Texts, parse_prefix, prefix_label, parse_text, numbered}
use gozellij.PrefixKey.Labels.{Documented, small, parse_prefix-prefix_label, parse_prefix-bound}

-- One digit is a number, and no other text is.
digit : List ℕ → Option ℕ
digit [] = none
digit (c ∷ []) = if leb b'0' c && leb c b'9' then some (c - b'0') else none
digit (c ∷ d ∷ t) = none

abbrev ascii : Texts
ascii = record { trim_space = λ t. t; to_lower = map small; parse_uint = digit }

digit-letter : (c : ℕ) (t : List ℕ) → 58 ≤ c → digit (c ∷ t) ≡ none
unfolding digit
digit-letter c [] l = ground arith
digit-letter c (d ∷ t) l = refl

ascii-Documented : Documented ascii
ascii-Documented = record { trims = λ t v. refl; lowers = λ t v. refl; letter_first = digit-letter }

parse_prefix-prefix_label_example : parse_prefix ascii (prefix_label 2) ≡ some 2
parse_prefix-prefix_label_example =
    parse_prefix-prefix_label ascii 2 ascii-Documented (omega arith) (omega arith)

seven : parse_prefix ascii (b'7' ∷ []) ≡ some 7
unfolding parse_prefix parse_text numbered digit
seven = refl

parse_prefix-bound_example : 7 ≤ 31
parse_prefix-bound_example = parse_prefix-bound ascii (b'7' ∷ []) 7 seven
