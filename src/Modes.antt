-- ===== src/Modes.antt =====
-- internal/fabric/termmodes.go: the terminal modes that a stream of output switches on and off.
--
-- Bytes are numbers below 256. The map `on` is an association list; the order of Go's iteration
-- over it never shows, because `sorted` puts its keys in order. An `int` that a number in the
-- stream does not fit makes `strconv.Atoi` fail, as an empty field does.
pub mod Decimal
pub mod Invariant
pub mod Keys
pub mod Replay
pub mod Rounds
use gozellij.Prelude.{
  same_text, map_get, map_set, map_delete, map_get-map_set, map_get-map_delete, ℕ, zero, suc, ◌+◌,
  ◌-◌, ◌*◌, ◌/◌, ◌%◌, ◌^◌, ◌≤◌, ◌<◌, min, max, ◌≡◌, refl, sym, ap, ap₂, subst, ◌∙◌, ◌≡⟨◌⟩◌, ◌∎, ◌≢◌,
  ◌↔◌, ◌⊎◌, inl, inr, Bool, true, false, not, ◌&&◌, ◌||◌, Option, none, some, List, [], ◌∷◌, ◌++◌,
  map, reverse, append-nil, append_assoc, arith, ltb, leb, ◌==◌, if◌then◌else◌, Bool-cases,
  Option-cases, length, get_elem?, get_or, set, take, drop, replicate, length-replicate,
  length-copy, length-copy_at, get_or-drop, get_or-take, get_or-append_left, get_or-append_right,
  get_or-copy_new, get_or-copy_old, get_or-copy_at_before, get_or-copy_at_in, get_or-copy_at_behind,
  get_or_ext, mod_cases, mod_step, mod_small, copy, copy_at, slice, keep_last, length-append,
  length-take, length-drop, take-append-drop, ltb→lt, lt→ltb, leb→le, le→leb, lt→leb, le→ltb,
  ==_iff, ==_ne,
}

pub record TermModes : Type 0 where
  pub on : List (ℕ × Bool)
  pub keypad : Bool
  pub carry : List ℕ

-- The zero value.
abbrev pub fresh : TermModes
fresh = record { on = []; keypad = false; carry = [] }

-- `trackedModes`: the power-on default of a mode that is followed.
unfoldable pub tracked_modes : ℕ → Option Bool
tracked_modes n =
    if n == 25
    then some true
    else if (n == 1)
        || (n == 47)
        || (n == 1047)
        || (n == 1049)
        || (n == 1000)
        || (n == 1002)
        || (n == 1003)
        || (n == 1004)
        || (n == 1005)
        || (n == 1006)
        || (n == 1015)
        || (n == 2004)
    then some false
    else none

abbrev pub max_carry : ℕ
max_carry = 64

abbrev pub esc : ℕ
esc = 0x1b

abbrev pub is_digit : ℕ → Bool
is_digit c = leb b'0' c && leb c b'9'

-- `strings.Split(s, ";")`.
unfoldable pub split_fields : List ℕ → List (List ℕ)
split_fields [] = [] ∷ []
split_fields (c ∷ s) = elim (split_fields s) [
  | [] ↦ [] ∷ []
  | f ∷ fs ↦ if c == b';' then [] ∷ f ∷ fs else (c ∷ f) ∷ fs
]

unfoldable pub decimal : ℕ → List ℕ → ℕ
decimal acc [] = acc
decimal acc (c ∷ s) = decimal (acc * 10 + (c - b'0')) s

-- `strconv.Atoi` on digits.
unfoldable pub atoi : List ℕ → Option ℕ
unfolding decimal
atoi [] = none
atoi (c ∷ s) = let n = decimal 0 (c ∷ s) in if ltb n (2 ^ 63) then some n else none

abbrev pub same_flag : Bool → Bool → Bool
same_flag true b = b
same_flag false b = not b

-- The body of the loop over the fields: one mode set or cleared, when it is followed.
unfoldable pub switch : List (ℕ × Bool) → Bool → Option ℕ → List (ℕ × Bool)
switch on set none = on
switch on set (some n) = elim (tracked_modes n) [
  | none ↦ on
  | some def ↦ if same_flag set def then map_delete on n else map_set on n set
]

unfoldable pub switch_all : List (ℕ × Bool) → Bool → List (List ℕ) → List (ℕ × Bool)
switch_all on set [] = on
switch_all on set (f ∷ fs) = switch_all (switch on set (atoi f)) set fs

-- The parameters at the front, and what follows them.
unfoldable pub params : List ℕ → List ℕ × List ℕ
params [] = ([], [])
params (c ∷ s) =
    let (ps, rest) = params s in if is_digit c || (c == b';') then (c ∷ ps, rest) else ([], c ∷ s)

-- What `escape` returns: the bytes that it read, or that the sequence is cut off.
pub data Escape : Type 0 where
  cut : Escape
  read : TermModes → ℕ → Escape

-- A private sequence behind `ESC [ ?`, with the bytes that follow these three.
unfoldable pub private_mode : TermModes → List ℕ × List ℕ → Escape
private_mode t (ps, []) = cut
private_mode t (ps, final ∷ rest) =
    if (final == b'h') || (final == b'l')
    then read (record t { on = switch_all t.on (final == b'h') (split_fields ps) }) (length ps + 4)
    else read t (length ps + 4)

unfoldable pub escape_csi : TermModes → List ℕ → Escape
escape_csi t [] = cut
escape_csi t (c ∷ p) = if c == b'?' then private_mode t (params p) else read t 2

-- `escape`, on a text that begins with ESC.
unfoldable pub escape : TermModes → List ℕ → Escape
escape t [] = cut
escape t (e ∷ []) = cut
escape t (e ∷ c ∷ p) =
    if c == b'='
    then read (record t { keypad = true }) 2
    else if c == b'>'
    then read (record t { keypad = false }) 2
    else if c == b'['
    then escape_csi t p
    else read t 1

-- From the first ESC on.
unfoldable pub from_esc : List ℕ → List ℕ
from_esc [] = []
from_esc (c ∷ p) = if c == esc then c ∷ p else from_esc p

unfoldable pub keep_carry : TermModes → List ℕ → TermModes
keep_carry t p = if leb (length p) max_carry then record t { carry = p } else t

-- The loop of `Feed`. A round reads at least one byte, so `length p` rounds are enough.
unfoldable pub scan : ℕ → TermModes → List ℕ → TermModes
scan zero t p = t
scan (suc fuel) t p = elim (from_esc p) [
  | [] ↦ t
  | c ∷ q ↦ elim (escape t (c ∷ q)) [
    | cut ↦ keep_carry t (c ∷ q)
    | read t' n ↦ scan fuel t' (drop n (c ∷ q))
  ]
]

unfoldable pub feed : TermModes → List ℕ → TermModes
feed t p = let all = t.carry ++ p in scan (suc (length all)) (record t { carry = [] }) all

unfoldable pub is_on : TermModes → ℕ → Bool
is_on t n = elim (map_get t.on n) [ none ↦ false | some b ↦ b ]

unfoldable pub alt_screen : TermModes → Bool
unfolding is_on
alt_screen t = is_on t 1049 || is_on t 1047 || is_on t 47

abbrev pub is_alt : ℕ → Bool
is_alt n = (n == 47) || (n == 1047) || (n == 1049)

-- The order of `sorted`.
abbrev pub before : ℕ → ℕ → Bool
before a b = if same_flag (is_alt a) (is_alt b) then ltb a b else is_alt a

unfoldable pub insert_key : ℕ → List ℕ → List ℕ
insert_key a [] = a ∷ []
insert_key a (b ∷ ks) = if before b a then b ∷ insert_key a ks else a ∷ b ∷ ks

-- `sorted`: the keys of `on`, alternate screens first.
unfoldable pub sorted : List (ℕ × Bool) → List ℕ
sorted [] = []
sorted ((n, b) ∷ m) = insert_key n (sorted m)

-- `strconv.Itoa`, for numbers of up to `fuel` digits.
unfoldable pub itoa : ℕ → ℕ → List ℕ
itoa zero n = []
itoa (suc fuel) n =
    let higher = itoa fuel (n / 10) in
    if ltb n 10 then (n + b'0') ∷ [] else higher ++ (n % 10 + b'0') ∷ []

-- `modeSeq`. The modes that are followed have at most four digits; a Go `int` has at most 19.
unfoldable pub mode_seq : ℕ → Bool → List ℕ
unfolding itoa
mode_seq n set = esc ∷ b'[' ∷ b'?' ∷ itoa 19 n ++ (if set then b'h' else b'l') ∷ []

unfoldable pub mode_seqs : (ℕ → Bool) → List ℕ → List ℕ
mode_seqs value [] = []
mode_seqs value (n ∷ ks) = mode_seq n (value n) ++ mode_seqs value ks

unfoldable pub preamble : TermModes → List ℕ
preamble t = mode_seqs (is_on t) (sorted t.on) ++ (if t.keypad then esc ∷ b'=' ∷ [] else [])

abbrev pub default_of : ℕ → Bool
default_of n = elim (tracked_modes n) [ none ↦ false | some b ↦ b ]

-- `Reset` returns what undoes the modes, and forgets them.
unfoldable pub reset : TermModes → TermModes × List ℕ
reset t = (
  fresh,
  mode_seqs default_of (reverse (sorted t.on)) ++ (if t.keypad then esc ∷ b'>' ∷ [] else []),
)
