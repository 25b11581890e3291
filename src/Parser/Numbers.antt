-- ===== src/Parser/Numbers.antt =====
-- internal/vt/grid/parser.go: the numeric parameters of a sequence, and arithmetic on them.
--
-- A parameter that is left out, -1 in the source, is `none`. All others are below 2 ^ 63.
use gozellij.Prelude.{
  ℕ, ◌+◌, ◌-◌, ◌*◌, ◌%◌, ◌^◌, min, ◌&&◌, Option, none, some, List, [], ◌∷◌, map, ltb, leb, ◌==◌,
  if◌then◌else◌, get_or,
}
use gozellij.Modes.{split_fields, itoa}

abbrev pub max_int : ℕ
max_int = 2 ^ 63 - 1

abbrev pub Param : Type 0
Param = Option ℕ

-- The value of `strconv.Atoi`, its error dropped: 0 at a character that is no digit, the largest
-- `int` once the digits read do not fit 64 bits.
unfoldable pub atoi_value : ℕ → List ℕ → ℕ
atoi_value acc [] = min acc max_int
atoi_value acc (c ∷ s) =
    let n = acc * 10 + (c - b'0') in
    let rest = atoi_value n s in
    if leb b'0' c && leb c b'9' then (if ltb n (2 ^ 64) then rest else max_int) else 0

unfoldable pub param : List ℕ → Param
param [] = none
param (c ∷ s) = some (atoi_value 0 (c ∷ s))

unfoldable pub params : List ℕ → List Param
params [] = []
params (c ∷ s) = map param (split_fields (c ∷ s))

-- A parameter that is positive, or the default: the function `arg` of `dispatch`.
abbrev pub or_default : Param → ℕ → ℕ
or_default none def = def
or_default (some n) def = if n == 0 then def else n

unfoldable pub arg : List Param → ℕ → ℕ → ℕ
arg ps i def = or_default (get_or ps i none) def

-- What `%d` prints.
abbrev pub decimal_of : Param → List ℕ
decimal_of none = b'-' ∷ b'1' ∷ []
decimal_of (some n) = itoa 19 n

-- `uint8(n)`.
abbrev pub uint8 : Param → ℕ
uint8 none = 255
uint8 (some n) = n % 256
