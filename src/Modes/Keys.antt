-- ===== src/Modes/Keys.antt =====
-- internal/fabric/termmodes.go: the sequences for a list of modes, and the order of the keys.
use gozellij.Prelude.{
  map_get, map_set, map_get-map_set, ℕ, zero, suc, ◌+◌, ◌^◌, ◌≤◌, ◌<◌, ◌≡◌, refl, sym, ap, ap₂, ◌∙◌,
  inl, inr, Bool, true, false, not, ◌||◌, Option, none, some, List, [], ◌∷◌, ◌++◌, append_assoc,
  arith, ◌==◌, if◌then◌else◌, Bool-cases, Option-cases, length, length-append,
}
use gozellij.Modes.{
  TermModes, switch, scan, mode_seqs, sorted, insert_key, mode_seq, before, tracked_modes, is_on,
  same_flag, from_esc,
}
use gozellij.Modes.Decimal.{scan-mode_seq}
use gozellij.Modes.Invariant.{IsFollowed}

-- The map after switching each mode of a list as `value` says.
unfoldable pub switches : List (ℕ × Bool) → (ℕ → Bool) → List ℕ → List (ℕ × Bool)
switches on value [] = on
switches on value (n ∷ ks) = switches (switch on (value n) (some n)) value ks

abbrev pub AllSmall : List ℕ → Type 0
AllSmall [] = Unit {0}
AllSmall (n ∷ ks) = (n < 2 ^ 63) × AllSmall ks

pub scan-mode_seqs :
    (ks : List ℕ) (fuel : ℕ) (t : TermModes) (value : ℕ → Bool) (rest : List ℕ)
    → AllSmall ks
    → scan (length ks + fuel) t (mode_seqs value ks ++ rest)
      ≡ scan fuel (record t { on = switches t.on value ks }) rest
unfolding mode_seqs switches
scan-mode_seqs [] fuel t value rest a = ap (λ k. scan k t rest) {x = 0 + fuel} (omega arith)
scan-mode_seqs (n ∷ ks) fuel t value rest a =
    ap₂ (λ k p. scan k t p) {x = suc (length ks) + fuel} {y = suc (length ks + fuel)} (omega arith)
      (append_assoc (mode_seq n (value n)) (mode_seqs value ks) rest)
    ∙ scan-mode_seq (length ks + fuel) t n (value n) (mode_seqs value ks ++ rest) a.0
    ∙ scan-mode_seqs ks fuel _ value rest a.1

-- Whether a key is in a list of keys.
unfoldable pub has : List ℕ → ℕ → Bool
has [] n = false
has (k ∷ ks) n = (k == n) || has ks n

has-insert_key : (k : ℕ) (ks : List ℕ) (n : ℕ) → has (insert_key k ks) n ≡ ((k == n) || has ks n)
unfolding has insert_key
has-insert_key k [] n = refl
has-insert_key k (j ∷ ks) n = elim (Bool-cases (before j k)) [
  | inl e ↦ rw e (ground (arith, has-insert_key k ks n))
  | inr e ↦ rw e refl
]

abbrev present : Option Bool → Bool
present none = false
present (some b) = true

pub has-sorted : (m : List (ℕ × Bool)) (n : ℕ) → has (sorted m) n ≡ present (map_get m n)
unfolding sorted has map_get
has-sorted [] n = refl
has-sorted ((k, b) ∷ m) n = ground (arith, has-insert_key k (sorted m) n, has-sorted m n)

-- Each mode of a list is a followed one, and `value` is not its default.
abbrev pub AllDiffer : (ℕ → Bool) → List ℕ → Type 0
AllDiffer value [] = Unit {0}
AllDiffer value (n ∷ ks) = (tracked_modes n ≡ some (not (value n))) × AllDiffer value ks

pub tracked_small : (n : ℕ) (b : Bool) → tracked_modes n ≡ some b → n < 2 ^ 63
unfolding tracked_modes
tracked_small n b h = ground arith

pub AllDiffer-AllSmall : (value : ℕ → Bool) (ks : List ℕ) → AllDiffer value ks → AllSmall ks
AllDiffer-AllSmall value [] d = tt
AllDiffer-AllSmall value (n ∷ ks) d =
    (tracked_small n (not (value n)) d.0, AllDiffer-AllSmall value ks d.1)

AllDiffer-of_has :
    (value : ℕ → Bool) (ks : List ℕ)
    → ((n : ℕ) → has ks n ≡ true → tracked_modes n ≡ some (not (value n)))
    → AllDiffer value ks
unfolding has
AllDiffer-of_has value [] h = tt
AllDiffer-of_has value (k ∷ ks) h =
    (h k (ground arith), AllDiffer-of_has value ks λ n m. h n (ground arith))

is_on_of_get : (t : TermModes) (n : ℕ) (b : Bool) → map_get t.on n ≡ some b → is_on t n ≡ b
unfolding is_on
is_on_of_get t n b e = rw (e, is_on)

pub sorted-AllDiffer : (t : TermModes) → IsFollowed t.on → AllDiffer (is_on t) (sorted t.on)
unfolding is_on
sorted-AllDiffer t f = AllDiffer-of_has (is_on t) (sorted t.on) λ n h.
    elim (Option-cases (map_get t.on n)) [
      | inl e ↦ ground (arith, has-sorted t.on n)
      | inr (b, e) ↦ f.followed n b e ∙ ap (λ v. some (not v)) (sym (is_on_of_get t n b e))
    ]

pub differs : (b : Bool) → same_flag b (not b) ≡ false
differs true = refl
differs false = refl

pub map_get-switches :
    (ks : List ℕ) (on : List (ℕ × Bool)) (value : ℕ → Bool) (n : ℕ)
    → AllDiffer value ks
    → map_get (switches on value ks) n ≡ (if has ks n then some (value n) else map_get on n)
unfolding switches has
map_get-switches [] on value n d = refl
map_get-switches (k ∷ ks) on value n d =
    map_get-switches ks (switch on (value k) (some k)) value n d.1
    ∙ ground (arith, set_step, map_get-map_set on k (value k) n)
  where
    set_step : switch on (value k) (some k) ≡ map_set on k (value k)
    set_step = unfold switch in rw (d.0, switch) (rw (differs (value k)))

pub length-mode_seqs : (value : ℕ → Bool) (ks : List ℕ) → length ks ≤ length (mode_seqs value ks)
unfolding mode_seqs mode_seq
length-mode_seqs value [] = omega arith
length-mode_seqs value (n ∷ ks) =
    omega
      (arith, length-append (mode_seq n (value n)) (mode_seqs value ks), length-mode_seqs value ks)

pub scan-nil : (fuel : ℕ) (t : TermModes) → scan fuel t [] ≡ t
unfolding scan from_esc
scan-nil zero t = refl
scan-nil (suc fuel) t = refl
