-- ===== src/Prelude/Indexing.antt =====
-- Lists by position, copies between slices, and numbers that go round.
use gozellij.Prelude.Lists.{
  length, get_or, set, take, drop, replicate, All, length-take, length-drop, length-append,
}
use Prim.Native.Nat.{ℕ, zero, suc, ◌+◌, ◌-◌, ◌%◌, ◌≤◌, ◌<◌}
use mathlib.Core.Path.{◌≡◌, refl, ap, ap₂, ◌∙◌}
use mathlib.Core.Logic.{◌≢◌, ◌⊎◌, inl, inr}
use mathlib.Core.List.{List, [], ◌∷◌, ◌++◌}
use native.Mathlib.Omega.{arith}
use native.Mathlib.Nat.{mod-eq_of_lt, mod-eq-sub-mod}
use native.Mathlib.Decide.{dec_lt}

module _ {ℓ} {A : Type ℓ} where
  -- Go's `copy(dst, src)`: as many elements as fit.
  abbrev pub copy : List A → List A → List A
  copy [] src = []
  copy (d ∷ dst) [] = d ∷ dst
  copy (d ∷ dst) (s ∷ src) = s ∷ copy dst src

  -- `copy(dst[i:], src)`.
  unfoldable pub copy_at : List A → ℕ → List A → List A
  copy_at dst i src = take i dst ++ copy (drop i dst) src

  -- The slice `xs[i:j]`.
  abbrev pub slice : List A → ℕ → ℕ → List A
  slice xs i j = take (j - i) (drop i xs)

  -- The last `n` elements, or all of them.
  abbrev pub keep_last : ℕ → List A → List A
  keep_last n xs = drop (length xs - n) xs

  pub length-copy : (dst src : List A) → length (copy dst src) ≡ length dst
  length-copy [] src = refl
  length-copy (d ∷ dst) [] = refl
  length-copy (d ∷ dst) (s ∷ src) = ap suc (length-copy dst src)

  pub length-copy_at :
      (dst : List A) (i : ℕ) (src : List A) → length (copy_at dst i src) ≡ length dst
  unfolding copy_at
  length-copy_at dst i src = omega (
    arith,
    length-append (take i dst) (copy (drop i dst) src),
    length-copy (drop i dst) src,
    length-take i dst,
    length-drop i dst,
  )

  pub get_or-drop :
      (n : ℕ) (xs : List A) (i : ℕ) (d : A) → get_or (drop n xs) i d ≡ get_or xs (n + i) d
  get_or-drop zero xs i d = ap (λ k. get_or xs k d) {x = i} {y = 0 + i} (omega arith)
  get_or-drop (suc n) [] i d = refl
  get_or-drop (suc n) (x ∷ xs) i d =
      get_or-drop n xs i d
      ∙ ap (λ k. get_or (x ∷ xs) k d) {x = suc (n + i)} {y = suc n + i} (omega arith)

  pub get_or-take :
      (n : ℕ) (xs : List A) (i : ℕ) (d : A) → i < n → get_or (take n xs) i d ≡ get_or xs i d
  get_or-take zero xs i d h = elim h [ ]
  get_or-take (suc n) [] i d h = refl
  get_or-take (suc n) (x ∷ xs) zero d h = refl
  get_or-take (suc n) (x ∷ xs) (suc i) d h = get_or-take n xs i d (omega arith)

  pub get_or-append_left :
      (xs ys : List A) (i : ℕ) (d : A) → i < length xs → get_or (xs ++ ys) i d ≡ get_or xs i d
  get_or-append_left [] ys i d h = elim h [ ]
  get_or-append_left (x ∷ xs) ys zero d h = refl
  get_or-append_left (x ∷ xs) ys (suc i) d h = get_or-append_left xs ys i d (omega arith)

  pub get_or-append_right :
      (xs ys : List A) (i : ℕ) (d : A)
      → length xs ≤ i
      → get_or (xs ++ ys) i d ≡ get_or ys (i - length xs) d
  get_or-append_right [] ys i d h = ap (λ k. get_or ys k d) (omega arith)
  get_or-append_right (x ∷ xs) ys zero d h = absurd (omega arith)
  get_or-append_right (x ∷ xs) ys (suc i) d h =
      get_or-append_right xs ys i d (omega arith) ∙ ap (λ k. get_or ys k d) (omega arith)

  pub get_or-copy_new :
      (dst src : List A) (i : ℕ) (d : A)
      → i < length dst
      → i < length src
      → get_or (copy dst src) i d ≡ get_or src i d
  get_or-copy_new [] src i d h k = elim h [ ]
  get_or-copy_new (x ∷ dst) [] i d h k = elim k [ ]
  get_or-copy_new (x ∷ dst) (s ∷ src) zero d h k = refl
  get_or-copy_new (x ∷ dst) (s ∷ src) (suc i) d h k =
      get_or-copy_new dst src i d (omega arith) (omega arith)

  pub get_or-copy_old :
      (dst src : List A) (i : ℕ) (d : A)
      → length src ≤ i
      → get_or (copy dst src) i d ≡ get_or dst i d
  get_or-copy_old [] src i d k = refl
  get_or-copy_old (x ∷ dst) [] i d k = refl
  get_or-copy_old (x ∷ dst) (s ∷ src) zero d k = absurd (omega arith)
  get_or-copy_old (x ∷ dst) (s ∷ src) (suc i) d k = get_or-copy_old dst src i d (omega arith)

  -- What a copy into `dst[i:]` leaves at a position: before it, in it and behind it.
  pub get_or-copy_at_before :
      (dst : List A) (i : ℕ) (src : List A) (j : ℕ) (d : A)
      → i ≤ length dst
      → j < i
      → get_or (copy_at dst i src) j d ≡ get_or dst j d
  unfolding copy_at
  get_or-copy_at_before dst i src j d h k =
      get_or-append_left (take i dst) (copy (drop i dst) src) j d (omega (arith, length-take i dst))
      ∙ get_or-take i dst j d k

  pub get_or-copy_at_in :
      (dst : List A) (i : ℕ) (src : List A) (k : ℕ) (d : A)
      → i + k < length dst
      → k < length src
      → get_or (copy_at dst i src) (i + k) d ≡ get_or src k d
  unfolding copy_at
  get_or-copy_at_in dst i src k d h l =
      get_or-append_right (take i dst) (copy (drop i dst) src) (i + k) d
        (omega (arith, length-take i dst))
      ∙ ap (λ m. get_or (copy (drop i dst) src) m d) (omega (arith, length-take i dst))
      ∙ get_or-copy_new (drop i dst) src k d (omega (arith, length-drop i dst)) l

  pub get_or-copy_at_behind :
      (dst : List A) (i : ℕ) (src : List A) (j : ℕ) (d : A)
      → i ≤ length dst
      → i + length src ≤ j
      → get_or (copy_at dst i src) j d ≡ get_or dst j d
  unfolding copy_at
  get_or-copy_at_behind dst i src j d h k =
      get_or-append_right (take i dst) (copy (drop i dst) src) j d
        (omega (arith, length-take i dst))
      ∙ get_or-copy_old (drop i dst) src (j - length (take i dst)) d
          (omega (arith, length-take i dst))
      ∙ get_or-drop i dst (j - length (take i dst)) d
      ∙ ap (λ m. get_or dst m d) (omega (arith, length-take i dst))

  pub get_or-set_self :
      (xs : List A) (i : ℕ) (v d : A) → i < length xs → get_or (set xs i v) i d ≡ v
  get_or-set_self [] i v d h = elim h [ ]
  get_or-set_self (x ∷ xs) zero v d h = refl
  get_or-set_self (x ∷ xs) (suc i) v d h = get_or-set_self xs i v d (omega arith)

  pub get_or-set_ne :
      (xs : List A) (i j : ℕ) (v d : A) → i ≢ j → get_or (set xs i v) j d ≡ get_or xs j d
  get_or-set_ne [] i j v d h = refl
  get_or-set_ne (x ∷ xs) zero zero v d h = absurd (h refl)
  get_or-set_ne (x ∷ xs) zero (suc j) v d h = refl
  get_or-set_ne (x ∷ xs) (suc i) zero v d h = refl
  get_or-set_ne (x ∷ xs) (suc i) (suc j) v d h = get_or-set_ne xs i j v d (λ e. h (ap suc e))

  -- Lists are equal that have one length and the same elements at each position.
  pub get_or_ext :
      (d : A) (xs ys : List A)
      → length xs ≡ length ys
      → ((i : ℕ) → i < length xs → get_or xs i d ≡ get_or ys i d)
      → xs ≡ ys
  get_or_ext d [] [] e h = refl
  get_or_ext d [] (y ∷ ys) e h = absurd (omega arith)
  get_or_ext d (x ∷ xs) [] e h = absurd (omega arith)
  get_or_ext d (x ∷ xs) (y ∷ ys) e h =
      ap₂ ◌∷◌ (h 0 (omega arith)) (get_or_ext d xs ys (omega arith) λ i k. h (suc i) (omega arith))

-- A number below three times the modulus, brought into range.
pub mod_cases :
    (x m : ℕ)
    → x < m + m + m
    → ((x < m) × (x % m ≡ x))
      ⊎ (((m ≤ x) × (x < m + m) × (x % m ≡ x - m)) ⊎ ((m + m ≤ x) × (x % m ≡ x - m - m)))
mod_cases x m h = elim (dec_lt x m) [
  | yes p ↦ inl (p, mod-eq_of_lt p)
  | no p ↦ elim (dec_lt x (m + m)) [
    | yes q ↦ inr (
        inl (
          omega arith,
          q,
          mod-eq-sub-mod {n = x} {m = m} (omega arith) ∙ mod-eq_of_lt (omega arith),
        ))
    | no q ↦ inr (
        inr (
          omega arith,
          mod-eq-sub-mod {n = x} {m = m} (omega arith)
              ∙ mod-eq-sub-mod {n = x - m} {m = m} (omega arith)
              ∙ mod-eq_of_lt (omega arith),
        ))
  ]
]

-- Going on by `k` from a place that was brought into range comes round at most once more.
pub mod_step :
    (x k m : ℕ)
    → x < m + m
    → k < m
    → ((x % m + k < m) × ((x + k) % m ≡ x % m + k))
      ⊎ ((m ≤ x % m + k) × ((x + k) % m ≡ x % m + k - m))
mod_step x k m h l = ground (arith, mod_cases x m (omega arith), mod_cases (x + k) m (omega arith))

pub mod_small : (x m : ℕ) → x < m + m → 0 < m → x % m < m
mod_small x m h p = ground (arith, mod_cases x m (omega arith))

module _ {ℓ κ} {A : Type ℓ} (P : A → Type κ) where
  pub All-set : (xs : List A) (i : ℕ) (v : A) → All P xs → P v → All P (set xs i v)
  All-set [] i v a p = tt
  All-set (x ∷ xs) zero v a p = (p, a.1)
  All-set (x ∷ xs) (suc i) v a p = (a.0, All-set xs i v a.1 p)

  pub All-take : (n : ℕ) (xs : List A) → All P xs → All P (take n xs)
  All-take zero xs a = tt
  All-take (suc n) [] a = tt
  All-take (suc n) (x ∷ xs) a = (a.0, All-take n xs a.1)

  pub All-drop : (n : ℕ) (xs : List A) → All P xs → All P (drop n xs)
  All-drop zero xs a = a
  All-drop (suc n) [] a = tt
  All-drop (suc n) (x ∷ xs) a = All-drop n xs a.1

  pub All-copy : (dst src : List A) → All P dst → All P src → All P (copy dst src)
  All-copy [] src a b = tt
  All-copy (d ∷ dst) [] a b = a
  All-copy (d ∷ dst) (s ∷ src) a b = (b.0, All-copy dst src a.1 b.1)

  pub All-append : (xs ys : List A) → All P xs → All P ys → All P (xs ++ ys)
  All-append [] ys a b = b
  All-append (x ∷ xs) ys a b = (a.0, All-append xs ys a.1 b)

  pub All-copy_at :
      (dst : List A) (i : ℕ) (src : List A) → All P dst → All P src → All P (copy_at dst i src)
  unfolding copy_at
  All-copy_at dst i src a b =
      All-append (take i dst) (copy (drop i dst) src) (All-take i dst a)
        (All-copy (drop i dst) src (All-drop i dst a) b)

  pub All-replicate : (n : ℕ) (v : A) → P v → All P (replicate n v)
  All-replicate zero v p = tt
  All-replicate (suc n) v p = (p, All-replicate n v p)

  pub All-get_or : (xs : List A) (i : ℕ) (d : A) → All P xs → i < length xs → P (get_or xs i d)
  All-get_or [] i d a h = elim h [ ]
  All-get_or (x ∷ xs) zero d a h = a.0
  All-get_or (x ∷ xs) (suc i) d a h = All-get_or xs i d a.1 (omega arith)
