-- ===== src/Output/Ring/Refine.antt =====
-- internal/fabric/output.go: the ring holds the last bytes of everything that was written.
use gozellij.Prelude.{
  ℕ, zero, suc, ◌+◌, ◌-◌, ◌%◌, ◌≤◌, ◌<◌, min, ◌≡◌, refl, sym, ap, ap₂, ◌∙◌, inl, inr, List, [], ◌∷◌,
  ◌++◌, append-nil, append_assoc, arith, leb, Bool-cases, length, get_or, drop, length-replicate,
  length-copy, get_or-drop, get_or-append_left, get_or-append_right, get_or-copy_new, get_or_ext,
  mod_small, copy, keep_last, length-append, length-drop, leb→le, le→leb, lt→leb,
}
use native.Mathlib.Nat.{mod-eq_of_lt, mod-add-mod}
use native.Mathlib.Decide.{dec_le, dec_lt}
use gozellij.Output.Ring.{Ring, place, snapshot, append, empty}
use gozellij.Output.Ring.Window.{
  IsValid, place_new, place_old, length-place_at, length-snapshot, get_or-snapshot,
}

-- The state after the writes of a list.
pub appends : Ring → List (List ℕ) → Ring
appends r [] = r
appends r (p ∷ ps) = appends (append r p) ps

unfoldable pub flatten : List (List ℕ) → List ℕ
flatten [] = []
flatten (p ∷ ps) = p ++ flatten ps

pub length-append_buf : (r : Ring) (p : List ℕ) → length (append r p).buf ≡ length r.buf
unfolding append
length-append_buf r p = ground (
  arith,
  length-place_at r.buf ((r.start + r.size) % length r.buf) p,
  length-copy r.buf (drop (length p - length r.buf) p),
)

pub append-IsValid : {r : Ring} (p : List ℕ) → IsValid r → IsValid (append r p)
unfolding append
append-IsValid {r} p v = ground (
  arith,
  length-place_at r.buf ((r.start + r.size) % length r.buf) p,
  length-copy r.buf (drop (length p - length r.buf) p),
  mod_small (r.start + (r.size + length p - length r.buf)) (length r.buf),
)

size-append :
    (r : Ring) (p : List ℕ) → IsValid r → (append r p).size ≡ min (length r.buf) (r.size + length p)
unfolding append
size-append r p v = ground arith

-- How many of the oldest bytes a write pushes out.
pushed_out : Ring → List ℕ → ℕ
pushed_out r p = r.size + length p - min (length r.buf) (r.size + length p)

buf-append_big :
    (r : Ring) (p : List ℕ) (i : ℕ)
    → length r.buf ≤ length p
    → i < length r.buf
    → get_or (append r p).buf (((append r p).start + i) % length r.buf) 0
      ≡ get_or p (length p - length r.buf + i) 0
unfolding append
buf-append_big r p i big h = rw (le→leb (length r.buf) (length p) big) (
    ap (λ m. get_or (copy r.buf (drop (length p - length r.buf) p)) m 0)
      {x = (0 + i) % length r.buf} {y = i}
      (ap (λ k. k % length r.buf) {x = 0 + i} {y = i} (omega arith) ∙ mod-eq_of_lt h)
    ∙ get_or-copy_new r.buf (drop (length p - length r.buf) p) i 0 h
        (omega (arith, length-drop (length p - length r.buf) p))
    ∙ get_or-drop (length p - length r.buf) p i 0)

buf-append_small : (r : Ring) (p : List ℕ) → length p < length r.buf → (append r p).buf ≡ place r p
unfolding append
buf-append_small r p h = ground arith

start-append_small :
    (r : Ring) (p : List ℕ) (i : ℕ)
    → length p < length r.buf
    → ((append r p).start + i) % length r.buf ≡ (r.start + (pushed_out r p + i)) % length r.buf
unfolding append pushed_out
start-append_small r p i h = elim (Bool-cases (leb (r.size + length p) (length r.buf))) [
  | inl fits ↦
      rw (lt→leb (length r.buf) (length p) h, fits)
        (ap (λ k. k % length r.buf) (omega (arith, leb→le (r.size + length p) (length r.buf) fits)))
  | inr over ↦
      rw (lt→leb (length r.buf) (length p) h, over, mod-add-mod)
        (ap (λ k. k % length r.buf) (ground arith))
]

snapshot_at_new :
    (r : Ring) (p : List ℕ) (k : ℕ)
    → r.size ≤ k
    → get_or (snapshot r ++ p) k 0 ≡ get_or p (k - r.size) 0
snapshot_at_new r p k h =
    get_or-append_right (snapshot r) p k 0 (omega (arith, length-snapshot r))
    ∙ ap (λ m. get_or p m 0) {x = k - length (snapshot r)} {y = k - r.size}
        (omega (arith, length-snapshot r))

-- Where a byte of the ring stands once `p` is written: `i` counts in what was held, then `p`.
append_at :
    (r : Ring) (p : List ℕ) (i : ℕ)
    → IsValid r
    → i < min (length r.buf) (r.size + length p)
    → get_or (append r p).buf (((append r p).start + i) % length r.buf) 0
      ≡ get_or (snapshot r ++ p) (pushed_out r p + i) 0
unfolding pushed_out
append_at r p i v h = elim (dec_le (length r.buf) (length p)) [
  | yes big ↦
      buf-append_big r p i big (omega arith)
      ∙ ap (λ m. get_or p m 0) {x = length p - length r.buf + i} {y = pushed_out r p + i - r.size}
          (omega arith)
      ∙ sym (snapshot_at_new r p (pushed_out r p + i) (omega arith))
  | no small ↦
      ap₂ (λ b m. get_or b m 0) (buf-append_small r p (omega arith))
        (start-append_small r p i (omega arith))
      ∙ elim (dec_lt (pushed_out r p + i) r.size) [
        | yes old ↦
            place_old r p (pushed_out r p + i) v (omega arith) old (omega arith)
            ∙ sym (get_or-snapshot r (pushed_out r p + i) v old)
            ∙ sym (
                get_or-append_left (snapshot r) p (pushed_out r p + i) 0
                  (omega (arith, length-snapshot r)))
        | no new ↦
            ap (λ m. get_or (place r p) (m % length r.buf) 0) {x = r.start + (pushed_out r p + i)}
              {y = r.start + r.size + (pushed_out r p + i - r.size)} (omega arith)
            ∙ place_new r p (pushed_out r p + i - r.size) v (omega arith) (omega arith)
            ∙ sym (snapshot_at_new r p (pushed_out r p + i) (omega arith))
      ]
]

pub length-keep_last : (n : ℕ) (xs : List ℕ) → length (keep_last n xs) ≡ min n (length xs)
length-keep_last n xs = omega (arith, length-drop (length xs - n) xs)

-- What the ring holds after a write is the last bytes, as many as fit, of what it held before and
-- what was written.
pub snapshot-append :
    (r : Ring) (p : List ℕ)
    → IsValid r
    → snapshot (append r p) ≡ keep_last (length r.buf) (snapshot r ++ p)
snapshot-append r p v =
    get_or_ext 0 (snapshot (append r p)) (keep_last (length r.buf) (snapshot r ++ p))
      (omega (
        arith,
        length-snapshot (append r p),
        length-snapshot r,
        size-append r p v,
        length-keep_last (length r.buf) (snapshot r ++ p),
        length-append (snapshot r) p,
      ))
      λ i h.
        let len = length-snapshot (append r p) in
        get_or-snapshot (append r p) i (append-IsValid p v) (omega arith)
        ∙ ap (λ m. get_or (append r p).buf (((append r p).start + i) % m) 0) (length-append_buf r p)
        ∙ append_at r p i v (omega (arith, size-append r p v))
        ∙ ap (λ m. get_or (snapshot r ++ p) m 0) {x = pushed_out r p + i}
            {y = length (snapshot r ++ p) - length r.buf + i}
            (unfold pushed_out in omega (arith, length-append (snapshot r) p, length-snapshot r))
        ∙ sym (get_or-drop (length (snapshot r ++ p) - length r.buf) (snapshot r ++ p) i 0)

pub length-eq_zero : (xs : List ℕ) → length xs ≡ 0 → xs ≡ []
length-eq_zero [] e = refl
length-eq_zero (x ∷ xs) e = absurd (omega arith)

drop-drop : (m n : ℕ) (xs : List ℕ) → drop m (drop n xs) ≡ drop (n + m) xs
drop-drop m n xs =
    get_or_ext 0 _ _
      (omega (arith, length-drop m (drop n xs), length-drop n xs, length-drop (n + m) xs))
      λ i h.
        get_or-drop m (drop n xs) i 0
        ∙ get_or-drop n xs (m + i) 0
        ∙ ap (λ k. get_or xs k 0) {x = n + (m + i)} {y = n + m + i} (omega arith)
        ∙ sym (get_or-drop (n + m) xs i 0)

pub drop-append : (n : ℕ) (xs ys : List ℕ) → n ≤ length xs → drop n (xs ++ ys) ≡ drop n xs ++ ys
drop-append zero xs ys h = refl
drop-append (suc n) [] ys h = absurd (omega arith)
drop-append (suc n) (x ∷ xs) ys h = drop-append n xs ys (omega arith)

pub keep_last-keep_last :
    (n : ℕ) (xs ys : List ℕ) → keep_last n (keep_last n xs ++ ys) ≡ keep_last n (xs ++ ys)
keep_last-keep_last n xs ys =
    ap (keep_last n) (sym (drop-append (length xs - n) xs ys (omega arith)))
    ∙ drop-drop (length (drop (length xs - n) (xs ++ ys)) - n) (length xs - n) (xs ++ ys)
    ∙ ap (λ k. drop k (xs ++ ys)) {y = length (xs ++ ys) - n}
        (omega (arith, length-drop (length xs - n) (xs ++ ys), length-append xs ys))

snapshot-appends_from :
    (r : Ring) (ps : List (List ℕ))
    → IsValid r
    → snapshot (appends r ps) ≡ keep_last (length r.buf) (snapshot r ++ flatten ps)
unfolding appends flatten
snapshot-appends_from r [] v =
    rw append-nil (ap (λ k. drop k (snapshot r)) {x = 0} (omega (arith, length-snapshot r)))
snapshot-appends_from r (p ∷ ps) v =
    snapshot-appends_from (append r p) ps (append-IsValid p v)
    ∙ ap₂ (λ n s. keep_last n (s ++ flatten ps)) (length-append_buf r p) (snapshot-append r p v)
    ∙ keep_last-keep_last (length r.buf) (snapshot r ++ p) (flatten ps)
    ∙ ap (keep_last (length r.buf)) (append_assoc (snapshot r) p (flatten ps))

pub empty-IsValid : (capacity : ℕ) → 0 < capacity → IsValid (empty capacity)
unfolding empty
empty-IsValid capacity h = record {
  in_ring = omega (arith, length-replicate {A = ℕ} capacity 0);
  within = omega (arith, length-replicate {A = ℕ} capacity 0);
}

pub length-empty : (capacity : ℕ) → length (empty capacity).buf ≡ capacity
unfolding empty
length-empty capacity = length-replicate capacity 0

pub snapshot-empty : (capacity : ℕ) → snapshot (empty capacity) ≡ []
unfolding empty
snapshot-empty capacity =
    length-eq_zero (snapshot (empty capacity)) (length-snapshot (empty capacity))

-- After any sequence of writes to a new ring it holds exactly the last bytes of all that was
-- written, as many as its capacity, in the order of writing.
pub snapshot-appends :
    (capacity : ℕ) (ps : List (List ℕ))
    → 0 < capacity
    → snapshot (appends (empty capacity) ps) ≡ keep_last capacity (flatten ps)
snapshot-appends capacity ps h =
    snapshot-appends_from (empty capacity) ps (empty-IsValid capacity h)
    ∙ ap₂ (λ n s. keep_last n (s ++ flatten ps)) (length-empty capacity) (snapshot-empty capacity)
