-- ===== src/Output/Ring/Window.antt =====
-- internal/fabric/output.go: which byte of the ring stands where in what it holds.
use gozellij.Prelude.{
  ℕ, ◌+◌, ◌-◌, ◌%◌, ◌≤◌, ◌<◌, min, ◌≡◌, sym, ap, ◌∙◌, ◌⊎◌, inl, inr, List, arith, length, get_or,
  take, drop, replicate, length-replicate, length-copy, length-copy_at, get_or-drop, get_or-take,
  get_or-copy_new, get_or-copy_old, get_or-copy_at_before, get_or-copy_at_in, get_or-copy_at_behind,
  mod_cases, mod_step, mod_small, copy, copy_at, slice, length-take, length-drop,
}
use gozellij.Output.Ring.{Ring, place, snapshot, place_at, gather}

pub record IsValid (r : Ring) : Type 0 where
  pub in_ring : r.start < length r.buf
  pub within : r.size ≤ length r.buf

pub length-place_at :
    (buf : List ℕ) (end : ℕ) (p : List ℕ) → length (place_at buf end p) ≡ length buf
unfolding place_at
length-place_at buf end p = ground (
  arith,
  length-copy_at buf end p,
  length-copy (copy_at buf end p) (drop (min (length buf - end) (length p)) p),
)

module _ (buf : List ℕ) (end : ℕ) (p : List ℕ) (fits : length p ≤ length buf)
    (h : end < length buf) where
  place_at_in :
      (k : ℕ)
      → k < length p
      → end + k < length buf
      → get_or (place_at buf end p) (end + k) 0 ≡ get_or p k 0
  unfolding place_at
  place_at_in k l e = ground (
    arith,
    get_or-copy_at_in buf end p k 0 e l,
    get_or-copy_old (copy_at buf end p) (drop (min (length buf - end) (length p)) p) (end + k) 0,
    length-drop (min (length buf - end) (length p)) p,
  )

  place_at_round :
      (k : ℕ)
      → k < length p
      → length buf ≤ end + k
      → get_or (place_at buf end p) (end + k - length buf) 0 ≡ get_or p k 0
  unfolding place_at
  place_at_round k l e = ground (
    arith,
    get_or-copy_new (copy_at buf end p) (drop n p) (end + k - length buf) 0,
    length-copy_at buf end p,
    length-drop n p,
    get_or-drop n p (end + k - length buf) 0,
    ap (λ m. get_or p m 0) {x = n + (end + k - length buf)} {y = k} (omega arith),
  )
    where
      n : ℕ
      n = min (length buf - end) (length p)

  place_at_out :
      (j : ℕ)
      → (j < end) × (end + length p ≤ length buf + j) ⊎ (end + length p ≤ j)
      → get_or (place_at buf end p) j 0 ≡ get_or buf j 0
  unfolding place_at
  place_at_out j out = ground (
    arith,
    get_or-copy_at_before buf end p j 0 (omega arith),
    get_or-copy_at_behind buf end p j 0 (omega arith),
    get_or-copy_old (copy_at buf end p) (drop (min (length buf - end) (length p)) p) j 0,
    length-drop (min (length buf - end) (length p)) p,
  )

-- The byte at position `k` of what is placed lies `k` places behind the write position.
pub place_new :
    (r : Ring) (p : List ℕ) (k : ℕ)
    → IsValid r
    → length p < length r.buf
    → k < length p
    → get_or (place r p) ((r.start + r.size + k) % length r.buf) 0 ≡ get_or p k 0
place_new r p k v l h =
    elim (mod_step (r.start + r.size) k (length r.buf) (omega arith) (omega arith)) [
      | inl (near, e) ↦ rw e (place_at_in r.buf end p (omega arith) (end_small) k h near)
      | inr (far, e) ↦ rw e (place_at_round r.buf end p (omega arith) (end_small) k h far)
    ]
  where
    end : ℕ
    end = (r.start + r.size) % length r.buf

    end_small : end < length r.buf
    end_small = mod_small (r.start + r.size) (length r.buf) (omega arith) (omega arith)

-- The others stay, as long as they are not among the oldest that `p` needs the room of.
pub place_old :
    (r : Ring) (p : List ℕ) (i : ℕ)
    → IsValid r
    → length p < length r.buf
    → i < r.size
    → r.size + length p ≤ length r.buf + i
    → get_or (place r p) ((r.start + i) % length r.buf) 0
      ≡ get_or r.buf ((r.start + i) % length r.buf) 0
place_old r p i v l h room =
    place_at_out r.buf ((r.start + r.size) % length r.buf) p (omega arith)
      (mod_small (r.start + r.size) (length r.buf) (omega arith) (omega arith))
      ((r.start + i) % length r.buf)
      (ground (
        arith,
        mod_cases (r.start + r.size) (length r.buf) (omega arith),
        mod_cases (r.start + i) (length r.buf) (omega arith),
      ))

module _ (buf : List ℕ) (size : ℕ) (first : List ℕ) where
  length-gather : length (gather buf size first) ≡ size
  unfolding gather
  length-gather = ground (
    arith,
    length-copy_at (copy (replicate size 0) first) (min size (length first))
        (take (size - min size (length first)) buf),
    length-copy (replicate size 0) first,
    length-replicate {A = ℕ} size 0,
  )

  gather_first :
      (i : ℕ) → i < size → i < length first → get_or (gather buf size first) i 0 ≡ get_or first i 0
  unfolding gather
  gather_first i h l = ground (
    arith,
    get_or-copy_at_before (copy (replicate size 0) first) (min size (length first))
        (take (size - min size (length first)) buf) i 0,
    get_or-copy_new (replicate size 0) first i 0,
    length-copy (replicate size 0) first,
    length-replicate {A = ℕ} size 0,
  )

  gather_rest :
      (k : ℕ)
      → length first + k < size
      → k < length buf
      → get_or (gather buf size first) (length first + k) 0 ≡ get_or buf k 0
  unfolding gather
  gather_rest k h l = ground (
    arith,
    ap (λ m. get_or (copy_at out n rest) (m + k) 0) {x = n} {y = length first} (omega arith),
    get_or-copy_at_in out n rest k 0,
    length-take (size - n) buf,
    get_or-take (size - n) buf k 0,
    length-copy (replicate size 0) first,
    length-replicate {A = ℕ} size 0,
  )
    where
      n : ℕ
      n = min size (length first)

      out : List ℕ
      out = copy (replicate size 0) first

      rest : List ℕ
      rest = take (size - n) buf

pub length-snapshot : (r : Ring) → length (snapshot r) ≡ r.size
unfolding snapshot
length-snapshot r = length-gather r.buf r.size _

length-slice :
    (r : Ring)
    → IsValid r
    → length (slice r.buf r.start (min (r.start + r.size) (length r.buf)))
      ≡ min r.size (length r.buf - r.start)
length-slice r v = ground (
  arith,
  length-take (min (r.start + r.size) (length r.buf) - r.start) (drop r.start r.buf),
  length-drop r.start r.buf,
)

pub get_or-snapshot :
    (r : Ring) (i : ℕ)
    → IsValid r
    → i < r.size
    → get_or (snapshot r) i 0 ≡ get_or r.buf ((r.start + i) % length r.buf) 0
unfolding snapshot
get_or-snapshot r i v h = elim (mod_cases (r.start + i) (length r.buf) (omega arith)) [
  | inl (near, e) ↦
      gather_first r.buf r.size first i h (omega (arith, length-slice r v))
      ∙ get_or-take _ (drop r.start r.buf) i 0 (omega arith)
      ∙ get_or-drop r.start r.buf i 0
      ∙ ap (λ m. get_or r.buf m 0) (sym e)
  | inr (inl (far, _, e)) ↦
      ap (λ m. get_or (gather r.buf r.size first) m 0) {x = i}
        {y = length first + (r.start + i - length r.buf)} (omega (arith, length-slice r v))
      ∙ gather_rest r.buf r.size first (r.start + i - length r.buf)
          (omega (arith, length-slice r v)) (omega arith)
      ∙ ap (λ m. get_or r.buf m 0) (sym e)
  | inr (inr (beyond, _)) ↦ absurd (omega arith)
]
  where
    first : List ℕ
    first = slice r.buf r.start (min (r.start + r.size) (length r.buf))
