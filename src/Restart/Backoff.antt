-- ===== src/Restart/Backoff.antt =====
-- internal/fabric/restart.go: how the delay between restarts grows.
use gozellij.Prelude.{
  ℕ, zero, suc, ◌+◌, ◌*◌, ◌^◌, ◌≤◌, ◌<◌, ◌≡◌, refl, ◌⊎◌, min, List, [], ◌∷◌, arith, length, subst,
}
use native.Mathlib.Nat.{pow-suc, add-zero}
use gozellij.Restart.{
  RestartTracker, reset, next_delay, died, backoff_first, backoff_max, stable_after,
}

-- No failure yet, or a delay within the limits.
abbrev pub IsValid : RestartTracker → Type 0
IsValid t = (t.delay ≡ 0) ⊎ ((backoff_first ≤ t.delay) × (t.delay ≤ backoff_max))

-- The tracker after a list of runs, each as long as its entry, that all ended.
pub deaths : RestartTracker → List ℕ → RestartTracker
deaths t [] = t
deaths t (r ∷ rs) = deaths (died t r).0 rs

delay-died : (t : RestartTracker) (r : ℕ) → (died t r).0.delay ≡ (died t r).1
unfolding died
delay-died t r = refl

restarts-died :
    (t : RestartTracker) (r : ℕ) → r < stable_after → (died t r).0.restarts ≡ t.restarts + 1
unfolding died
restarts-died t r h = ground arith

first_delay :
    (t : RestartTracker) (r : ℕ)
    → (died (reset t) r).0.delay ≡ min (backoff_first * 2 ^ 0) backoff_max
unfolding died next_delay
first_delay t r = ground arith

first_count : (t : RestartTracker) (r : ℕ) → (died (reset t) r).0.restarts ≡ 1
unfolding died
first_count t r = ground arith

pub died_bounds :
    (t : RestartTracker) (ran_for : ℕ)
    → IsValid t
    → (backoff_first ≤ (died t ran_for).1) × ((died t ran_for).1 ≤ backoff_max)
unfolding died next_delay
died_bounds t r v = ground arith

-- However often and whenever a process died before, the wait before its next restart is at least
-- `BackoffFirst` and at most `BackoffMax`, so a flapping process is neither a busy loop nor given up.
pub died-deaths_bounds :
    (rs : List ℕ) (t : RestartTracker) (ran_for : ℕ)
    → IsValid t
    → (backoff_first ≤ (died (deaths t rs) ran_for).1)
      × ((died (deaths t rs) ran_for).1 ≤ backoff_max)
unfolding deaths
died-deaths_bounds [] t r v = died_bounds t r v
died-deaths_bounds (x ∷ rs) t r v =
    died-deaths_bounds rs (died t x).0 r (ground (arith, died_bounds t x v, delay-died t x))

-- The tracker of a process that has just begun to flap and has died `j + 1` times.
abbrev pub Flapping : ℕ → RestartTracker → Type 0
Flapping j t = t.delay ≡ min (backoff_first * 2 ^ j) backoff_max

abbrev pub AllUnstable : List ℕ → Type 0
AllUnstable [] = Unit {0}
AllUnstable (r ∷ rs) = (r < stable_after) × AllUnstable rs

pow_pos : (j : ℕ) → 1 ≤ 2 ^ j
pow_pos zero = omega arith
pow_pos (suc j) = omega (arith, pow_pos j, pow-suc 2 j)

died-Flapping :
    (j : ℕ) (t : RestartTracker) (r : ℕ)
    → r < stable_after
    → Flapping j t
    → Flapping (suc j) (died t r).0
unfolding died next_delay
died-Flapping j t r h f = ground (arith, pow_pos j, pow-suc 2 j)

deaths-Flapping :
    (rs : List ℕ) (j : ℕ) (t : RestartTracker)
    → AllUnstable rs
    → Flapping j t
    → Flapping (j + length rs) (deaths t rs)
unfolding deaths
deaths-Flapping [] j t u f = rw add-zero f
deaths-Flapping (r ∷ rs) j t u f =
    subst (λ k. Flapping k (deaths (died t r).0 rs)) (omega arith)
      (deaths-Flapping rs (suc j) (died t r).0 u.1 (died-Flapping j t r u.0 f))

restarts-deaths :
    (rs : List ℕ) (t : RestartTracker)
    → AllUnstable rs
    → (deaths t rs).restarts ≡ t.restarts + length rs
unfolding deaths
restarts-deaths [] t u = omega arith
restarts-deaths (r ∷ rs) t u =
    omega (arith, restarts-deaths rs (died t r).0 u.1, restarts-died t r u.0)

-- The delays of a process that keeps dying young double from `BackoffFirst` until they reach
-- `BackoffMax`, and its deaths are counted: after a first death and those of the list, whatever
-- came before the reset, the wait is the smaller of `BackoffFirst * 2 ^ n` and `BackoffMax`.
pub deaths-reset :
    (t : RestartTracker) (r : ℕ) (rs : List ℕ)
    → AllUnstable rs
    → let t' = deaths (reset t) (r ∷ rs) in
      (t'.delay ≡ min (backoff_first * 2 ^ length rs) backoff_max) × (t'.restarts ≡ suc (length rs))
unfolding deaths
deaths-reset t r rs u = (
  subst (λ k. Flapping k (deaths (died (reset t) r).0 rs)) (omega arith)
      (deaths-Flapping rs 0 (died (reset t) r).0 u (first_delay t r)),
  omega (arith, restarts-deaths rs (died (reset t) r).0 u, first_count t r),
)
