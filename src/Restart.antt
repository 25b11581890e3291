-- ===== src/Restart.antt =====
-- internal/fabric/restart.go: what to do when a supervised process exits.
--
-- A text is its list of code points. A `time.Duration` is its number of nanoseconds; the ones here
-- are lengths of time, so they are not negative, and a delay stays far below 2 ^ 63. A policy is one
-- of the three constants; what `String` prints of other integers is left out.
pub mod Backoff
pub mod Policy
use gozellij.Prelude.{
  ℕ, ◌+◌, ◌*◌, ◌-◌, ◌^◌, ◌≡◌, refl, Bool, true, false, not, ◌&&◌, ◌||◌, Option, none, some, List,
  [], ◌∷◌, map, reverse, ltb, leb, ◌==◌, if◌then◌else◌, same_text,
}

pub data RestartPolicy : Type 0 where
  never on_failure always : RestartPolicy

-- `Signal` is empty unless the process was killed by a signal; a code is a 64-bit pattern.
pub record Exit : Type 0 where
  pub code : ℕ
  pub signal : List ℕ

-- `unicode.IsSpace`.
abbrev pub is_space : ℕ → Bool
is_space c =
    (leb 9 c && leb c 13)
    || (c == 32)
    || (c == 0x85)
    || (c == 0xa0)
    || (c == 0x1680)
    || (leb 0x2000 c && leb c 0x200a)
    || (c == 0x2028)
    || (c == 0x2029)
    || (c == 0x202f)
    || (c == 0x205f)
    || (c == 0x3000)

-- `unicode.ToLower`, as far as its result can be an ASCII character: the capital letters, the
-- dotted capital i and the Kelvin sign. Any other code point stays outside ASCII.
abbrev pub to_lower : ℕ → ℕ
to_lower c =
    if leb b'A' c && leb c b'Z'
    then c + 32
    else if c == 0x130
    then b'i'
    else if c == 0x212a
    then b'k'
    else c

abbrev pub trim_left : List ℕ → List ℕ
trim_left [] = []
trim_left (c ∷ s) = if is_space c then trim_left s else c ∷ s

abbrev pub trim_space : List ℕ → List ℕ
trim_space s = reverse (trim_left (reverse (trim_left s)))

pub data ParseResult : Type 0 where
  parsed : RestartPolicy → ParseResult
  unknown_policy : List ℕ → ParseResult

abbrev pub no_text : List ℕ
no_text = b'n' ∷ b'o' ∷ []

abbrev pub never_text : List ℕ
never_text = b'n' ∷ b'e' ∷ b'v' ∷ b'e' ∷ b'r' ∷ []

abbrev pub failure_text : List ℕ
failure_text = b'f' ∷ b'a' ∷ b'i' ∷ b'l' ∷ b'u' ∷ b'r' ∷ b'e' ∷ []

abbrev pub always_text : List ℕ
always_text = b'a' ∷ b'l' ∷ b'w' ∷ b'a' ∷ b'y' ∷ b's' ∷ []

pub policy_string : RestartPolicy → List ℕ
policy_string never = no_text
policy_string on_failure = b'o' ∷ b'n' ∷ b'-' ∷ failure_text
policy_string always = always_text

-- The `switch` of `ParseRestartPolicy`, on the trimmed text in lower case.
unfoldable pub policy_of_word : List ℕ → List ℕ → ParseResult
policy_of_word s w =
    if same_text w no_text || same_text w never_text || same_text w []
    then parsed never
    else if same_text w (b'o' ∷ b'n' ∷ b'-' ∷ failure_text)
        || same_text w (b'o' ∷ b'n' ∷ failure_text)
        || same_text w (b'o' ∷ b'n' ∷ b'_' ∷ failure_text)
    then parsed on_failure
    else if same_text w always_text
    then parsed always
    else unknown_policy s

unfoldable pub parse_restart_policy : List ℕ → ParseResult
unfolding policy_of_word
parse_restart_policy s = policy_of_word s (map to_lower (trim_space s))

unfoldable pub clean : Exit → Bool
clean e = (e.code == 0) && same_text e.signal []

unfoldable pub should_restart : RestartPolicy → Exit → Bool
should_restart always e = true
should_restart on_failure e = not (clean e)
should_restart never e = false

abbrev pub second : ℕ
second = 1000000000

abbrev pub backoff_first : ℕ
backoff_first = second

abbrev pub backoff_max : ℕ
backoff_max = 30 * second

abbrev pub stable_after : ℕ
stable_after = 60 * second

pub record RestartTracker : Type 0 where
  pub delay : ℕ
  pub restarts : ℕ

unfoldable pub reset : RestartTracker → RestartTracker
reset t = record { delay = 0; restarts = 0 }

-- The `switch` of `Died`: the delay after the one that was waited last.
unfoldable pub next_delay : ℕ → ℕ
next_delay d =
    if d == 0
    then backoff_first
    else if ltb d backoff_max
    then (if ltb backoff_max (d * 2) then backoff_max else d * 2)
    else d

unfoldable pub died : RestartTracker → ℕ → RestartTracker × ℕ
unfolding reset
died t ran_for =
    let t' = if leb stable_after ran_for then reset t else t in
    let d = next_delay t'.delay in (record { delay = d; restarts = t'.restarts + 1 }, d)
