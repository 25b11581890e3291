-- ===== src/Output/Subscriber.antt =====
-- internal/fabric/output.go: `Subscriber`, live output for one attached reader.
--
-- A channel keeps all that was ever sent into it and how much of that was received, so what a
-- reader got and what it can still get are both in view. Go panics when a closed channel is sent
-- to or closed: `faulted` records that. Each method is one step: what it does between two of its
-- locks is not interleaved with another method.
use gozellij.Prelude.{
  ℕ, ◌+◌, ◌-◌, Bool, true, Option, List, [], ◌∷◌, ◌++◌, ltb, if◌then◌else◌, length,
}

pub record Channel : Type 0 where
  pub sent : List (List ℕ)
  pub taken : ℕ
  pub closed : Bool
  pub faulted : Bool

-- `subscriberChunks`: the depth of the channel.
abbrev pub subscriber_chunks : ℕ
subscriber_chunks = 4096

abbrev pub buffered : Channel → ℕ
buffered c = length c.sent - c.taken

unfoldable pub close_channel : Channel → Channel
close_channel c = if c.closed then record c { faulted = true } else record c { closed = true }

pub record Subscriber : Type 0 where
  -- Whether it is in the map `subs` of its buffer.
  pub attached : Bool
  pub preamble : List ℕ
  pub screen : Option (List ℕ)
  pub ch : Channel
  pub max_bytes : ℕ
  pub id : ℕ
  pub from : ℕ
  -- Whether `closeOnce` has run.
  pub close_done : Bool
  pub queued : ℕ
  pub lagged : Bool

-- `closeCh`.
unfoldable pub close_ch : Subscriber → Subscriber
unfolding close_channel
close_ch s = if s.close_done then s else record s { ch = close_channel s.ch; close_done = true }

-- The `select` of `offer`: the chunk goes into the channel, if there is room.
unfoldable pub send_chunk : Subscriber → List ℕ → Subscriber
unfolding close_ch
send_chunk s p =
    if s.ch.closed
    then record s {
      ch = record { sent = s.ch.sent; taken = s.ch.taken; closed = true; faulted = true };
    }
    else if ltb (buffered s.ch) subscriber_chunks
    then record s {
      ch = record {
        sent = s.ch.sent ++ p ∷ [];
        taken = s.ch.taken;
        closed = s.ch.closed;
        faulted = s.ch.faulted;
      };
    }
    else close_ch (record s { lagged = true; queued = s.queued - length p })

unfoldable pub offer : Subscriber → List ℕ → Subscriber
unfolding close_ch send_chunk
offer s p =
    if s.lagged
    then s
    else if ltb s.max_bytes (s.queued + length p)
    then close_ch (record s { lagged = true })
    else send_chunk (record s { queued = s.queued + length p }) p

-- `Consumed`: a budget that would fall below 0 is 0.
unfoldable pub consumed : ℕ → Subscriber → Subscriber
consumed n s = record s { queued = s.queued - n }

-- The reader takes the next chunk, when there is one.
unfoldable pub receive : Subscriber → Subscriber
receive s =
    if ltb s.ch.taken (length s.ch.sent)
    then record s {
      ch = record {
        sent = s.ch.sent;
        taken = s.ch.taken + 1;
        closed = s.ch.closed;
        faulted = s.ch.faulted;
      };
    }
    else s
