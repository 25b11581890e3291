-- ===== src/Tests/Streams.antt =====
-- internal/ipc/frame.go, internal/fabric/termmodes.go and restart.go: runs of the models.
use gozellij.Prelude.{
  refl, ℕ, List, map_get, suc, arith, true, [], ◌∷◌, ◌≡◌, ◌≤◌, length, false, ◌↔◌, ◌+◌, some, ◌⊎◌,
  inl, ◌≢◌, ◌++◌, none, min, ◌*◌, ◌^◌,
}
use gozellij.Frame.RoundTrip.{
  Frames, read_frames, frame, AllSendable, count, all_bytes, end, read_frames-all_bytes,
}
use gozellij.Frame.{
  valid, Received, read_frame, read_full, kind_data, read_announced, kind_event, read_body,
  split_body, max_frame_size, eof, uint32, frame_bytes, ok,
}
use gozellij.Frame.Decoding.{AllBytes, read_frame_sound}
use gozellij.Modes.{TermModes, feed, tracked_modes, esc, fresh, preamble}
use gozellij.Modes.Invariant.{IsFollowed, feed-IsFollowed}
use gozellij.Restart.{
  backoff_first, should_restart, parse_restart_policy, on_failure, policy_string, policy_of_word,
  died, parsed, backoff_max, always, Exit, second, failure_text,
}
use gozellij.Restart.Backoff.{deaths, died-deaths_bounds, deaths-reset}
use gozellij.Modes.Replay.{feed-preamble, feed-reset}
use gozellij.Restart.Policy.{parse_restart_policy-policy_string, should_restart_iff}

-- A data frame of two bytes, and an event without a payload.
abbrev two_frames : Frames
two_frames = frame kind_data (b'h' ∷ b'i' ∷ []) (frame kind_event [] end)

two_frames_sendable : AllSendable two_frames
unfolding valid
two_frames_sendable = (refl, omega arith, (refl, omega arith, tt))

read_frames-all_bytes_example :
    read_frames (suc (count two_frames)) (all_bytes two_frames) ≡ (two_frames, some eof)
read_frames-all_bytes_example = read_frames-all_bytes two_frames two_frames_sendable

abbrev failed : Exit
failed = record { code = 1; signal = [] }

abbrev request : List ℕ
request = 0 ∷ 0 ∷ 0 ∷ 2 ∷ 1 ∷ 7 ∷ 9 ∷ []

abbrev request_received : Received
request_received = record { kind = 1; payload = 7 ∷ []; rest = 9 ∷ [] }

-- Read from the bytes of a request and one byte more.
read_request : read_frame request ≡ ok request_received
unfolding read_frame read_full read_announced read_body split_body uint32 valid
read_request = refl

small_bytes : AllBytes request
small_bytes = ground arith

read_frame_sound_example :
    (valid 1 ≡ true)
    × (length request_received.payload + 1 ≤ max_frame_size)
    × (request ≡ frame_bytes 1 request_received.payload ++ request_received.rest)
read_frame_sound_example = read_frame_sound request request_received small_bytes read_request

-- An escape sequence split over two chunks.
abbrev mouse_on : TermModes
mouse_on = record { on = (1000, true) ∷ (25, false) ∷ []; keypad = true; carry = [] }

mouse_on-IsFollowed : IsFollowed mouse_on.on
unfolding map_get tracked_modes
mouse_on-IsFollowed = record { followed = λ n b h. ground arith }

feed-IsFollowed_example : IsFollowed (feed mouse_on (esc ∷ b'[' ∷ [])).on
feed-IsFollowed_example = feed-IsFollowed mouse_on (esc ∷ b'[' ∷ []) mouse_on-IsFollowed

feed-preamble_example :
    let u = feed fresh (preamble mouse_on) in
    ((n : ℕ) → map_get u.on n ≡ map_get mouse_on.on n)
    × (u.keypad ≡ mouse_on.keypad)
    × (u.carry ≡ [])
feed-preamble_example = feed-preamble mouse_on mouse_on-IsFollowed

feed-reset_example :
    let u = feed (record mouse_on { carry = [] }) (gozellij.Modes.reset mouse_on).1 in
    ((n : ℕ) → map_get u.on n ≡ none) × (u.keypad ≡ false) × (u.carry ≡ [])
feed-reset_example = feed-reset mouse_on mouse_on-IsFollowed

-- A process that dies at once, again and again.
died-deaths_bounds_example :
    (backoff_first ≤ (died (deaths (record { delay = 0; restarts = 0 }) (0 ∷ 0 ∷ 0 ∷ [])) 0).1)
    × ((died (deaths (record { delay = 0; restarts = 0 }) (0 ∷ 0 ∷ 0 ∷ [])) 0).1 ≤ backoff_max)
died-deaths_bounds_example =
    died-deaths_bounds (0 ∷ 0 ∷ 0 ∷ []) (record { delay = 0; restarts = 0 }) 0 (inl refl)

deaths-reset_example :
    let t' =
      deaths (gozellij.Restart.reset (record { delay = 7; restarts = 2 })) (0 ∷ second ∷ 5 ∷ []) in
    (t'.delay ≡ min (backoff_first * 2 ^ length (second ∷ 5 ∷ [])) backoff_max)
    × (t'.restarts ≡ suc (length (second ∷ 5 ∷ [])))
deaths-reset_example =
    deaths-reset (record { delay = 7; restarts = 2 }) 0 (second ∷ 5 ∷ [])
      (omega arith, (omega arith, tt))

should_restart_iff_example : (should_restart on_failure failed ≡ true) ↔ (
    (on_failure ≡ always)
    ⊎ ((on_failure ≡ on_failure) × ((failed.code ≢ 0) ⊎ (failed.signal ≢ []))))
should_restart_iff_example = should_restart_iff on_failure failed

parse_restart_policy-policy_string_example :
    parse_restart_policy (policy_string on_failure) ≡ parsed on_failure
parse_restart_policy-policy_string_example = parse_restart_policy-policy_string on_failure

-- Capitals, spaces around and an underscore are all accepted.
parse_on_failure :
    parse_restart_policy (b' ' ∷ b'O' ∷ b'N' ∷ b'_' ∷ failure_text ++ b' ' ∷ []) ≡ parsed on_failure
unfolding parse_restart_policy policy_of_word
parse_on_failure = refl
