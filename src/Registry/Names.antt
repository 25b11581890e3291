-- ===== src/Registry/Names.antt =====
-- internal/fabric/service.go: what a valid name is.
use gozellij.Prelude.{All, ℕ, ◌≤◌, ◌<◌, ◌≡◌, ◌≢◌, true, none, List, [], ◌∷◌, arith, length}
use gozellij.Registry.{valid_service_name, matches_name, all_in_name, in_name}

-- Lower case letters, digits, underscores and hyphens, so neither a separator nor a dot.
abbrev pub IsPlain : ℕ → Type 0
IsPlain c = (c ≢ b'/') × (c ≢ b'.') × (c ≢ 0) × (c < 128)

in_name-IsPlain : (c : ℕ) → in_name c ≡ true → IsPlain c
in_name-IsPlain c h = (λ e. ground arith, λ e. ground arith, λ e. ground arith, ground arith)

all_in_name-All : (s : List ℕ) → all_in_name s ≡ true → All IsPlain s
unfolding all_in_name
all_in_name-All [] h = tt
all_in_name-All (c ∷ s) h = (in_name-IsPlain c (ground arith), all_in_name-All s (ground arith))

-- A name that is accepted has 1 to 64 characters, none of them a path separator, a dot, a NUL or
-- outside ASCII.
pub valid_service_name-IsPlain :
    (name : List ℕ)
    → valid_service_name name ≡ none
    → (1 ≤ length name) × (length name ≤ 64) × All IsPlain name
unfolding valid_service_name matches_name
valid_service_name-IsPlain [] h = absurd (ground arith)
valid_service_name-IsPlain (c ∷ s) h = (
  ground arith,
  ground arith,
  (in_name-IsPlain c (ground arith), all_in_name-All s (ground arith)),
)
