-- ===== src/Frame/RoundTrip.antt =====
-- internal/ipc/frame.go: what one side writes, the other side reads.
use gozellij.Prelude.{
  zero, suc, ℕ, ◌≡◌, refl, arith, ◌<◌, ◌++◌, ◌∷◌, ◌+◌, ap, ◌≤◌, ◌^◌, le→leb, sym, ==_ne, ◌≡⟨◌⟩◌,
  length-append, le→ltb, ◌∎, append_assoc, length, List, take, drop, true, [], Option, some, none,
}
use gozellij.Frame.{
  valid, max_frame_size, be32, uint32, frame_bytes, read_full, split_body, read_body,
  read_announced, read_frame, ok, err, full, FrameError, eof,
}

length-be32 : (n : ℕ) → length (be32 n) ≡ 4
unfolding be32
length-be32 n = refl

uint32-be32 : (n : ℕ) → n < 2 ^ 32 → uint32 (be32 n) ≡ n
unfolding be32 uint32
uint32-be32 n h = omega arith

take_all : (xs ys : List ℕ) → take (length xs) (xs ++ ys) ≡ xs
take_all [] ys = refl
take_all (x ∷ xs) ys = ap (◌∷◌ x) (take_all xs ys)

drop_all : (xs ys : List ℕ) → drop (length xs) (xs ++ ys) ≡ ys
drop_all [] ys = refl
drop_all (x ∷ xs) ys = drop_all xs ys

read_full-append : (n : ℕ) (xs ys : List ℕ) → n ≡ length xs → read_full n (xs ++ ys) ≡ full xs ys
unfolding read_full
read_full-append n xs ys e = rw (
  e,
  le→leb (length xs) (length (xs ++ ys)) (omega (arith, length-append xs ys)),
  take_all xs ys,
  drop_all xs ys,
)

read_frame-be32 : (n : ℕ) (s : List ℕ) → n < 2 ^ 32 → read_frame (be32 n ++ s) ≡ read_announced n s
unfolding read_frame
read_frame-be32 n s h =
    rw (read_full-append 4 (be32 n) s (sym (length-be32 n)), read_frame) (rw (uint32-be32 n h))

read_body-append :
    (body rest : List ℕ) (n : ℕ)
    → n ≡ length body
    → read_body n (body ++ rest) ≡ split_body body rest
unfolding read_body
read_body-append body rest n e = rw (read_full-append n body rest e, read_body)

read_announced_body :
    (body rest : List ℕ) (n : ℕ)
    → n ≡ length body
    → 0 < n
    → n ≤ max_frame_size
    → read_announced n (body ++ rest) ≡ split_body body rest
unfolding read_announced
read_announced_body body rest n e p h =
    rw (==_ne n 0 (omega arith), le→ltb max_frame_size n h) (read_body-append body rest n e)

split_body-valid :
    (k : ℕ) (payload rest : List ℕ)
    → valid k ≡ true
    → split_body (k ∷ payload) rest ≡ ok (record { kind = k; payload = payload; rest = rest })
unfolding split_body
split_body-valid k payload rest v = rw v

-- A frame of a valid kind that is not too large is read back as it was written, whatever follows
-- it in the stream, and nothing of what follows is consumed.
pub read_frame-frame_bytes :
    (k : ℕ) (payload rest : List ℕ)
    → valid k ≡ true
    → length payload + 1 ≤ max_frame_size
    → read_frame (frame_bytes k payload ++ rest)
      ≡ ok (record { kind = k; payload = payload; rest = rest })
unfolding frame_bytes
read_frame-frame_bytes k payload rest v h =
    read_frame (frame_bytes k payload ++ rest)
    ≡⟨ ap read_frame (append_assoc (be32 (length payload + 1)) (k ∷ payload) rest) ⟩
      read_frame (be32 (length payload + 1) ++ (k ∷ payload ++ rest))
    ≡⟨ read_frame-be32 (length payload + 1) (k ∷ payload ++ rest) (omega arith) ⟩
      read_announced (length payload + 1) (k ∷ payload ++ rest)
    ≡⟨ read_announced_body (k ∷ payload) rest _ (omega arith) (omega arith) h ⟩
      split_body (k ∷ payload) rest
    ≡⟨ split_body-valid k payload rest v ⟩
      ok (record { kind = k; payload = payload; rest = rest }) ∎

-- Frames of valid kinds and sizes, as a writer puts them one behind the other into a connection.
pub data Frames : Type 0 where
  end : Frames
  frame : (k : ℕ) (payload : List ℕ) → Frames → Frames

pub all_bytes : Frames → List ℕ
all_bytes end = []
all_bytes (frame k payload fs) = frame_bytes k payload ++ all_bytes fs

abbrev pub AllSendable : Frames → Type 0
AllSendable end = Unit {0}
AllSendable (frame k payload fs) =
    (valid k ≡ true) × (length payload + 1 ≤ max_frame_size) × AllSendable fs

-- The frames that a reader gets from a stream with that many calls of `ReadFrame`, and the error
-- of the call that got none.
pub read_frames : ℕ → List ℕ → Frames × Option FrameError
read_frames zero s = (end, none)
read_frames (suc n) s = elim (read_frame s) [
  | err e ↦ (end, some e)
  | ok r ↦ let more = read_frames n r.rest in (frame r.kind r.payload more.0, more.1)
]

pub count : Frames → ℕ
count end = 0
count (frame k payload fs) = suc (count fs)

read_frames_end : read_frames 1 [] ≡ (end, some eof)
unfolding read_frames read_frame read_full
read_frames_end = refl

-- A reader that reads to the end of a stream of sendable frames, one behind the other, gets exactly
-- these frames in their order, and then the plain end of the stream.
pub read_frames-all_bytes :
    (fs : Frames) → AllSendable fs → read_frames (suc (count fs)) (all_bytes fs) ≡ (fs, some eof)
unfolding all_bytes count read_frames
read_frames-all_bytes end h = read_frames_end
read_frames-all_bytes (frame k payload fs) (v, h, more) =
    rw (read_frame-frame_bytes k payload (all_bytes fs) v h, read_frames)
      (rw (read_frames-all_bytes fs more))
