-- ===== src/Frame.antt =====
-- internal/ipc/frame.go: length-prefixed frames on a stream of bytes.
--
-- A byte is a number below 256. A stream to read is the list of the bytes that still come before
-- its end; reading returns what is left of it. Where frames go is an argument, `write`, which
-- stands for the `io.Writer`: it fails or returns the sink with the bytes added in one piece.
pub mod RoundTrip
pub mod Decoding
use gozellij.Prelude.{
  ℕ, suc, ◌+◌, ◌*◌, ◌/◌, ◌%◌, ◌^◌, ◌≡◌, Bool, true, false, ◌||◌, Option, none, some, List, [], ◌∷◌,
  ◌++◌, ltb, leb, ◌==◌, if◌then◌else◌, length, take, drop,
}

abbrev pub kind_request : ℕ
kind_request = 1

abbrev pub kind_response : ℕ
kind_response = 2

abbrev pub kind_data : ℕ
kind_data = 3

abbrev pub kind_event : ℕ
kind_event = 4

-- `Kind.Valid`.
unfoldable pub valid : ℕ → Bool
valid k = (k == kind_request) || (k == kind_response) || (k == kind_data) || (k == kind_event)

abbrev pub max_frame_size : ℕ
max_frame_size = 8 * 2 ^ 20

pub data FrameError : Type 0 where
  eof empty_frame truncated_header truncated_body write_failed : FrameError
  unknown_kind frame_too_large : ℕ → FrameError

pub data Result {ℓ} (A : Type ℓ) : Type ℓ where
  ok : A → Result A
  err : FrameError → Result A

-- `binary.BigEndian.AppendUint32` of `uint32(n)`.
unfoldable pub be32 : ℕ → List ℕ
be32 n = (n / 2 ^ 24 % 256) ∷ (n / 2 ^ 16 % 256) ∷ (n / 2 ^ 8 % 256) ∷ (n % 256) ∷ []

-- `binary.BigEndian.Uint32`, on the four bytes of a header.
unfoldable pub uint32 : List ℕ → ℕ
uint32 (a ∷ b ∷ c ∷ d ∷ s) = a * 2 ^ 24 + b * 2 ^ 16 + c * 2 ^ 8 + d
uint32 s = 0

-- The buffer that `WriteFrame` fills, header first.
unfoldable pub frame_bytes : ℕ → List ℕ → List ℕ
frame_bytes k payload = be32 (length payload + 1) ++ (k ∷ payload)

module _ {ℓ} {W : Type ℓ} (write : W → List ℕ → Option W) where
  send : W → List ℕ → Result W
  send w b = elim (write w b) [ none ↦ err write_failed | some w' ↦ ok w' ]

  unfoldable pub write_frame : W → ℕ → List ℕ → Result W
  unfolding send
  write_frame w k payload =
      let n = length payload + 1 in
      if valid k
      then if ltb max_frame_size n then err (frame_too_large n) else send w (frame_bytes k payload)
      else err (unknown_kind k)

-- `io.ReadFull` into `n` bytes: all of them, nothing at all, or too few.
pub data ReadFull : Type 0 where
  full : List ℕ → List ℕ → ReadFull
  at_end short : ReadFull

unfoldable pub read_full : ℕ → List ℕ → ReadFull
read_full n s =
    if leb n (length s) then full (take n s) (drop n s) else if length s == 0 then at_end else short

pub record Received : Type 0 where
  pub kind : ℕ
  pub payload : List ℕ
  pub rest : List ℕ

-- The kind byte and the payload of a body that was read whole.
unfoldable pub split_body : List ℕ → List ℕ → Result Received
split_body [] rest = err empty_frame
split_body (k ∷ payload) rest =
    if valid k
    then ok (record { kind = k; payload = payload; rest = rest })
    else err (unknown_kind k)

unfoldable pub read_body : ℕ → List ℕ → Result Received
read_body n s = elim (read_full n s) [
  | full body rest ↦ split_body body rest
  | at_end ↦ err truncated_body
  | short ↦ err truncated_body
]

-- The guards on the announced length, and the body.
unfoldable pub read_announced : ℕ → List ℕ → Result Received
read_announced n s =
    if n == 0
    then err empty_frame
    else if ltb max_frame_size n
    then err (frame_too_large n)
    else read_body n s

unfoldable pub read_frame : List ℕ → Result Received
read_frame s = elim (read_full 4 s) [
  | full header rest ↦ read_announced (uint32 header) rest
  | at_end ↦ err eof
  | short ↦ err truncated_header
]
