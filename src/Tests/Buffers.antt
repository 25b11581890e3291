-- ===== src/Tests/Buffers.antt =====
-- internal/fabric/output.go: runs of the buffer and its ring.
use gozellij.Prelude.{
  refl, ℕ, List, ◌≡◌, [], true, ◌++◌, keep_last, none, ◌∷◌, ◌⊎◌, length, false, All, arith, some,
  copy_at, take, ◌<◌,
}
use gozellij.Output.Buffer.{
  Emulator, OutputBuffer, Event, run, new_output_buffer, writes, attach, attaches, receives, closes,
}
use gozellij.Output.Ring.{snapshot, append, empty, place_at, gather}
use gozellij.Output.Ring.Refine.{appends, flatten, snapshot-appends}
use gozellij.Output.Buffer.Delivery.{stream_of, capacity_of, run-new_output_buffer, new-Inv}
use gozellij.Output.Subscriber.{Subscriber}
use gozellij.Output.Buffer.Readers.{Sound}
use gozellij.Output.Buffer.Calls.{attach_lem}
use gozellij.Output.Replay.{newline, replay_start, NoNewline, look, replay_start_lem}

-- A picture that is what was drawn on it.
abbrev text_emulator : Emulator
text_emulator = record {
  Screen = List ℕ;
  create = λ cols rows. [];
  set_scrollback = λ s n. s;
  write = λ s p. s ++ p;
  take_replies = λ s. s;
  take_colour_asks = λ s. s;
  resize = λ s cols rows. s;
  render = λ s. s;
}

-- Three writes to a buffer of four bytes, a reader that comes after the first and lags at the
-- third, and a close.
abbrev shell : List (Event text_emulator)
shell =
    writes (b'a' ∷ b'b' ∷ [])
    ∷ attaches 3
    ∷ writes (b'c' ∷ b'd' ∷ [])
    ∷ receives 0
    ∷ writes (b'e' ∷ b'f' ∷ [])
    ∷ closes
    ∷ []

run-new_output_buffer_example :
    let o = run text_emulator (new_output_buffer text_emulator 4) shell in
    let stream = stream_of text_emulator (new_output_buffer text_emulator 4) shell in
    (snapshot o.ring ≡ keep_last (capacity_of text_emulator 4) stream)
    × (o.written ≡ length stream)
    × All (Sound stream) o.subs
run-new_output_buffer_example = run-new_output_buffer text_emulator 4 shell

snapshot-appends_example :
    snapshot (appends (empty 4) ((b'a' ∷ b'b' ∷ b'c' ∷ []) ∷ (b'd' ∷ b'e' ∷ []) ∷ []))
    ≡ keep_last 4 (flatten ((b'a' ∷ b'b' ∷ b'c' ∷ []) ∷ (b'd' ∷ b'e' ∷ []) ∷ []))
snapshot-appends_example =
    snapshot-appends 4 ((b'a' ∷ b'b' ∷ b'c' ∷ []) ∷ (b'd' ∷ b'e' ∷ []) ∷ []) (omega arith)

-- The ring goes round: the two writes leave the last four bytes.
ring_goes_round :
    snapshot (append (append (empty 4) (b'a' ∷ b'b' ∷ b'c' ∷ [])) (b'd' ∷ b'e' ∷ []))
    ≡ b'b' ∷ b'c' ∷ b'd' ∷ b'e' ∷ []
unfolding snapshot append empty place_at gather copy_at
ring_goes_round = refl

abbrev fresh_buffer : OutputBuffer text_emulator
fresh_buffer = new_output_buffer text_emulator 4

attach_lem_example :
    ((fresh_buffer.closed ≡ true) × (attach text_emulator fresh_buffer 8 ≡ (fresh_buffer, none)))
    ⊎ ((fresh_buffer.closed ≡ false)
        × (s : Subscriber) × ((attach text_emulator fresh_buffer 8).1 ≡ some (keep_last 4 [], s))
        × ((attach text_emulator fresh_buffer 8).0.subs ≡ s ∷ fresh_buffer.subs)
        × (s.from ≡ 0)
        × (s.attached ≡ true)
        × (s.lagged ≡ false))
attach_lem_example = attach_lem text_emulator 4 [] fresh_buffer 8 (new-Inv text_emulator 4)

abbrev cut_line : List ℕ
cut_line = b'3' ∷ b'1' ∷ b'm' ∷ newline ∷ b'$' ∷ []

-- The rest of an escape sequence goes, and the replay begins with the next line.
replay_start_lem_example :
    ((replay_start cut_line ≡ cut_line) × NoNewline (take look cut_line))
    ⊎ ((before : List ℕ) × (cut_line ≡ before ++ newline ∷ replay_start cut_line)
        × NoNewline before
        × (length before < look))
replay_start_lem_example = replay_start_lem cut_line
