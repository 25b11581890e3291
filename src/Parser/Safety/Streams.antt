-- ===== src/Parser/Safety/Streams.antt =====
-- internal/vt/grid/parser.go: what any stream does to a new terminal.
use gozellij.Prelude.{ℕ, ◌≡◌, ◌⊎◌, Bool, Option, none, some, List, ◌∷◌, ◌++◌}
use gozellij.Parser.State.{Machine, State}
use gozellij.Parser.Feed.{feed}
use gozellij.Parser.Safety.Feeding.{Goes, OverflowsAt}

module _ (combining : ℕ → Bool) where
  abbrev Ends : Machine → ℕ → Option Machine → Type 0
  Ends m c o = Goes o ⊎ ((o ≡ none) × OverflowsAt m c)

  -- The bytes before the first at which the parser overflows are fed without a panic.
  abbrev pub StopsIn : Machine → List ℕ → Type 0
  StopsIn m b =
      (before : List ℕ) × (c : ℕ) × (rest : List ℕ) × (u : Machine) × (b ≡ before ++ c ∷ rest)
      × (feed combining m before ≡ some u)
      × OverflowsAt u c
