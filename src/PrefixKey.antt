-- ===== src/PrefixKey.antt =====
-- internal/status/prefix.go: the key that talks to gozellij, `ParsePrefix` and `PrefixLabel`.
--
-- What the packages strings and strconv do with a text outside ASCII or with a number is an argument.
pub mod Labels
use gozellij.Prelude.{
  same_text, All, All-map, All-set, All-take, All-drop, All-copy, All-append, All-copy_at,
  All-replicate, All-get_or, List-cases, map_get, map_set, map_delete, map_get-map_set,
  map_get-map_delete, ℕ, zero, suc, ◌+◌, ◌-◌, ◌*◌, ◌/◌, ◌%◌, ◌^◌, ◌≤◌, ◌<◌, min, max, ◌≡◌, refl,
  sym, ap, ap₂, subst, ◌∙◌, ◌≡⟨◌⟩◌, ◌∎, ◌≢◌, ◌↔◌, ◌⊎◌, inl, inr, Bool, true, false, not, ◌&&◌, ◌||◌,
  Option, none, some, List, [], ◌∷◌, ◌++◌, map, reverse, append-nil, append_assoc, arith, ltb, leb,
  ◌==◌, if◌then◌else◌, Bool-cases, if_elim, ℕ_discrete, dec_le, dec_lt, pred, Option-cases, length,
  get_elem?, get_or, set, take, drop, replicate, length-replicate, length-copy, length-copy_at,
  get_or-drop, get_or-take, get_or-append_left, get_or-append_right, get_or-copy_new,
  get_or-copy_old, get_or-copy_at_before, get_or-copy_at_in, get_or-copy_at_behind, get_or_ext,
  get_or-set_self, get_or-set_ne, length-set, length-map, mod_cases, mod_step, mod_small, copy,
  copy_at, slice, keep_last, length-append, length-take, length-drop, take-append-drop, ltb→lt,
  lt→ltb, leb→le, le→leb, lt→leb, le→ltb, ==_iff, ==_ne,
}

-- `strings.TrimSpace`, `strings.ToLower` and `strconv.ParseUint(t, 0, 8)`.
pub record Texts : Type 0 where
  pub trim_space : List ℕ → List ℕ
  pub to_lower : List ℕ → List ℕ
  pub parse_uint : List ℕ → Option ℕ

abbrev pub ctrl_dash : List ℕ
ctrl_dash = b'c' ∷ b't' ∷ b'r' ∷ b'l' ∷ b'-' ∷ []

abbrev pub ctrl_plus : List ℕ
ctrl_plus = b'c' ∷ b't' ∷ b'r' ∷ b'l' ∷ b'+' ∷ []

abbrev pub spellings : List (List ℕ)
spellings = ctrl_dash ∷ ctrl_plus ∷ (b'c' ∷ b'-' ∷ []) ∷ (b'^' ∷ []) ∷ []

-- `strings.CutPrefix`.
unfoldable pub cut_prefix : List ℕ → List ℕ → Option (List ℕ)
cut_prefix [] t = some t
cut_prefix (p ∷ ps) [] = none
cut_prefix (p ∷ ps) (c ∷ t) = if p == c then cut_prefix ps t else none

-- The text behind the first of the spellings that it begins with, or all of it.
unfoldable pub cut_any : List (List ℕ) → List ℕ → List ℕ
cut_any [] t = t
cut_any (p ∷ ps) t = elim (cut_prefix p t) [ some rest ↦ rest | none ↦ cut_any ps t ]

-- The switch on the one character that is left.
unfoldable pub control_of : ℕ → Option ℕ
control_of c =
    if leb b'a' c && leb c b'z'
    then some (c - b'a' + 1)
    else if c == b']'
    then some 0x1d
    else if c == b'['
    then some 0x1b
    else if c == 0x5c
    then some 0x1c
    else if c == b'^'
    then some 0x1e
    else if c == b'_'
    then some 0x1f
    else if c == 0x20
    then some 0
    else none

unfoldable pub only_control : List ℕ → Option ℕ
only_control [] = none
only_control (c ∷ []) = control_of c
only_control (c ∷ d ∷ t) = none

-- A number has to be a control character.
unfoldable pub numbered : ℕ → Option ℕ
numbered n = if (n == 0) || ltb 0x1f n then none else some n

unfoldable pub parse_text : Texts → List ℕ → Option ℕ
parse_text x [] = none
parse_text x (c ∷ t) = elim (x.parse_uint (c ∷ t)) [
  | some n ↦ numbered n
  | none ↦ only_control (cut_any spellings (x.to_lower (c ∷ t)))
]

unfoldable pub parse_prefix : Texts → List ℕ → Option ℕ
parse_prefix x s = parse_text x (x.trim_space s)

unfoldable pub hex_digit : ℕ → ℕ
hex_digit d = if ltb d 10 then b'0' + d else b'a' + (d - 10)

abbrev pub ctrl_label : ℕ → List ℕ
ctrl_label c = b'C' ∷ b't' ∷ b'r' ∷ b'l' ∷ b'-' ∷ c ∷ []

unfoldable pub prefix_label : ℕ → List ℕ
prefix_label b =
    if leb 1 b && leb b 26
    then ctrl_label (b'A' + b - 1)
    else if b == 0x1b
    then ctrl_label b'['
    else if b == 0x1c
    then ctrl_label 0x5c
    else if b == 0x1d
    then ctrl_label b']'
    else if b == 0x1e
    then ctrl_label b'^'
    else if b == 0x1f
    then ctrl_label b'_'
    else b'0' ∷ b'x' ∷ hex_digit (b / 16) ∷ hex_digit (b % 16) ∷ []
