-- ===== src/Output/Ring.antt =====
-- internal/fabric/output.go: the bytes that an `OutputBuffer` keeps, in a ring.
--
-- A slice is a list, a byte a number below 256. A read out of range would be 0 and a write out of
-- range nothing: `IsValid` keeps every index of these functions in range.
pub mod Window
pub mod Refine
use gozellij.Prelude.{
  ℕ, ◌+◌, ◌-◌, ◌%◌, min, List, ltb, leb, ◌==◌, if◌then◌else◌, length, take, drop, replicate, copy,
  copy_at, slice, ◌*◌, ◌^◌,
}

-- The fields `buf`, `start` and `size`; the capacity is the length of `buf`.
pub record Ring : Type 0 where
  pub buf : List ℕ
  pub start : ℕ
  pub size : ℕ

abbrev pub default_output_bytes : ℕ
default_output_bytes = 256 * 2 ^ 10

-- `make([]byte, capacity)`.
unfoldable pub empty : ℕ → Ring
empty capacity = record { buf = replicate capacity 0; start = 0; size = 0 }

-- The copy to the write position and, round the end, to the front.
unfoldable pub place_at : List ℕ → ℕ → List ℕ → List ℕ
place_at buf end p =
    let n = min (length buf - end) (length p) in
    if ltb n (length p) then copy (copy_at buf end p) (drop n p) else copy_at buf end p

abbrev pub place : Ring → List ℕ → List ℕ
place r p = place_at r.buf ((r.start + r.size) % length r.buf) p

unfoldable pub append : Ring → List ℕ → Ring
append r p =
    let capacity = length r.buf in
    if leb capacity (length p)
    then record { buf = copy r.buf (drop (length p - capacity) p); start = 0; size = capacity }
    else if leb (r.size + length p) capacity
    then record r { buf = place r p; size = r.size + length p }
    else record {
      buf = place r p;
      start = (r.start + (r.size + length p - capacity)) % capacity;
      size = capacity;
    }

-- The copy of what stands from `start` on and, if that is not all, of the front.
unfoldable pub gather : List ℕ → ℕ → List ℕ → List ℕ
gather buf size first =
    let out = copy (replicate size 0) first in
    let n = min size (length first) in
    if ltb n size then copy_at out n (take (size - n) buf) else out

unfoldable pub snapshot : Ring → List ℕ
snapshot r = gather r.buf r.size (slice r.buf r.start (min (r.start + r.size) (length r.buf)))
