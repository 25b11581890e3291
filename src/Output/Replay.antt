-- ===== src/Output/Replay.antt =====
-- internal/fabric/output.go: `ReplayStart`, where a replay into a terminal begins.
use gozellij.Prelude.{
  zero, suc, refl, [], ◌∷◌, arith, ℕ, inl, inr, All, List, ◌*◌, Option, ℕ_discrete, ◌^◌, ◌≢◌, ◌≡◌,
  none, take, if_elim, if◌then◌else◌, ◌==◌, ◌⊎◌, some, ◌++◌, length, ap, ◌<◌,
}

-- A line longer than this is not looked for.
abbrev pub look : ℕ
look = 64 * 2 ^ 10

abbrev pub newline : ℕ
newline = 10

-- What stands behind the first newline of the first `n` bytes.
unfoldable pub after_newline : ℕ → List ℕ → Option (List ℕ)
after_newline zero b = none
after_newline (suc n) [] = none
after_newline (suc n) (c ∷ b) =
    let later = after_newline n b in if c == newline then some b else later

unfoldable pub replay_start : List ℕ → List ℕ
replay_start b = elim (after_newline look b) [ none ↦ b | some rest ↦ rest ]

abbrev pub NoNewline : List ℕ → Type 0
NoNewline b = All (λ c. c ≢ newline) b

-- What a search of the first `n` bytes says.
abbrev Found : ℕ → List ℕ → Option (List ℕ) → Type 0
Found n b none = NoNewline (take n b)
Found n b (some rest) =
    (line : List ℕ) × (b ≡ line ++ newline ∷ rest) × NoNewline line × (length line < n)

longer :
    (n c : ℕ) (b : List ℕ) (found : Option (List ℕ))
    → c ≢ newline
    → Found n b found
    → Found (suc n) (c ∷ b) found
longer n c b none h f = (h, f)
longer n c b (some rest) h (line, e, plain, short) =
    (c ∷ line, ap (◌∷◌ c) e, (h, plain), omega (arith, short))

after_newline-Found : (n : ℕ) (b : List ℕ) → Found n b (after_newline n b)
unfolding after_newline
after_newline-Found zero b = tt
after_newline-Found (suc n) [] = tt
after_newline-Found (suc n) (c ∷ b) = elim (ℕ_discrete c newline) [
  | yes e ↦
      if_elim (Found (suc n) (c ∷ b)) (c == newline) (some b) (after_newline n b)
        (λ _. ([], ap (λ k. k ∷ b) e, tt, omega arith)) (λ f. ground arith)
  | no h ↦
      if_elim (Found (suc n) (c ∷ b)) (c == newline) (some b) (after_newline n b)
        (λ t. ground arith) (λ _. longer n c b (after_newline n b) h (after_newline-Found n b))
]

-- A replay into a terminal is the kept bytes without their first line and its newline, when that
-- line is shorter than the limit; when no newline is among as many bytes as the limit, it is all of
-- them.
pub replay_start_lem :
    (b : List ℕ)
    → ((replay_start b ≡ b) × NoNewline (take look b))
      ⊎ ((line : List ℕ) × (b ≡ line ++ newline ∷ replay_start b)
          × NoNewline line
          × (length line < look))
unfolding replay_start
replay_start_lem b =
    elim (after_newline look b)
        as (λ o.
          Found look b o
          → ((elim o as (λ _. List ℕ) [ none ↦ b | some rest ↦ rest ] ≡ b)
              × NoNewline (take look b))
            ⊎ ((line : List ℕ) × (b
                  ≡ line ++ newline ∷ elim o as (λ _. List ℕ) [ none ↦ b | some rest ↦ rest ])
                × NoNewline line
                × (length line < look))) [ none ↦ λ f. inl (refl, f) | some rest ↦ λ f. inr f ]
      (after_newline-Found look b)
