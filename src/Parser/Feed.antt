-- ===== src/Parser/Feed.antt =====
-- internal/vt/grid/parser.go: `feed` and `ground`, the loop over the bytes of one write.
--
-- How wide a character is comes from internal/vt/width.go, and so from its argument `combining`.
use gozellij.Prelude.{
  ℕ, zero, suc, Bool, true, false, not, ◌&&◌, ◌||◌, Option, none, some, List, [], ◌∷◌, ◌++◌, ltb,
  leb, ◌==◌, if◌then◌else◌, length,
}
use gozellij.Parser.State.{Parser, Machine, State}
use gozellij.Parser.State
use gozellij.Parser.Utf8.{
  full_rune, decode_rune, could_complete, rune_error, utf_max, is_continuation,
}
use gozellij.Parser.Control.{control}
use gozellij.Parser.Escape.{escape}
use gozellij.Parser.Csi.{csi}
use gozellij.Parser.Strings.{osc, str}
use gozellij.Grid.Term.{Term, select_charset}
use gozellij.Grid.Draw.{put, put_string}
use gozellij.Grid.Charset.{map_rune}
use gozellij.Width.{rune_width, string_width}
use gozellij.Modes.{esc}

-- A byte that is no continuation ends a character that is half decoded.
unfoldable pub cut_rune : Parser → ℕ → Parser
cut_rune p c =
    if ltb 0 (length p.utf8) && not (is_continuation c)
    then record p { utf8 = []; invalid = true }
    else p

-- `drawPending`.
unfoldable pub draw_pending : Machine → Option Machine
draw_pending m =
    if m.parser.invalid
    then State.with_term (record (m.parser) { invalid = false }) (put m.term rune_error 1)
    else some m

-- The look-ahead: how many more bytes are taken, and the bytes of the character with them.
unfoldable pub absorb : ℕ → List ℕ → List ℕ → ℕ × List ℕ
absorb zero u b = (0, u)
absorb (suc k) u [] = (0, u)
absorb (suc k) u (next ∷ b) =
    let more = absorb k (u ++ next ∷ []) b in
    if full_rune u || not (is_continuation next) then (0, u) else (suc more.0, more.1)

abbrev pub is_ground : State → Bool
is_ground State.ground = true
is_ground s = false

module _ (combining : ℕ → Bool) where
  unfoldable pub draw_ascii : Term → ℕ → Option Term
  draw_ascii t c = elim (map_rune t c) [
    | some glyph ↦ put_string t glyph (string_width combining glyph)
    | none ↦ put t c (rune_width combining c)
  ]

  -- The bytes of a character that are there: drawn, given up, or kept for the next write.
  unfoldable pub settle_rune : Machine → List ℕ → Option Machine
  settle_rune m u =
      let (r, size) = decode_rune u in
      let done = record (m.parser) { utf8 = [] } in
      if full_rune u
      then if (r == rune_error) && leb size 1
        then State.with_term done (put m.term rune_error 1)
        else State.with_term done (put m.term r (rune_width combining r))
      else if leb utf_max (length u) || not (could_complete u)
      then some (record m { parser = record done { invalid = true } })
      else some (record m { parser = record (m.parser) { utf8 = u } })

  -- The end of `ground`, for a byte that is no control; with the number of extra bytes.
  unfoldable pub draw_byte : Machine → ℕ → List ℕ → Option (Machine × ℕ)
  draw_byte m c b =
      let (extra, u) = absorb 3 (m.parser.utf8 ++ c ∷ []) b in
      if ltb c 0x80
      then elim (State.with_term m.parser (draw_ascii m.term c)) [
        | none ↦ none
        | some m' ↦ some (m', 0)
      ]
      else elim (settle_rune m u) [ none ↦ none | some m' ↦ some (m', extra) ]

  unfoldable pub control_or_draw : Machine → ℕ → List ℕ → Option (Machine × ℕ)
  control_or_draw m c b = elim (control m.term c) [
    | some t ↦ some (record m { term = t }, 0)
    | none ↦ draw_byte m c b
  ]

  unfoldable pub ground : Machine → ℕ → List ℕ → Option (Machine × ℕ)
  ground m c b =
      let m' = record m { parser = cut_rune m.parser c } in
      if c == esc
      then some
          (record m' { parser = State.to_state State.escape (State.clear_params m'.parser) }, 0)
      else elim (draw_pending m') [ none ↦ none | some m'' ↦ control_or_draw m'' c b ]

  -- One byte in a state other than `ground`.
  unfoldable pub in_sequence : State → Machine → ℕ → Option Machine
  in_sequence State.ground m c = some m
  in_sequence State.escape m c = some (escape m c)
  in_sequence State.csi m c = csi m c
  in_sequence State.osc m c = some (osc m c)
  in_sequence State.charset_select m c = some (record {
    term = select_charset m.term m.parser.charset_slot c;
    parser = State.to_state State.ground m.parser;
  })
  in_sequence State.str m c = some (str m c)

  -- The body of the loop of `feed`: one byte, and what follows it in the same write.
  unfoldable pub step : Machine → ℕ → List ℕ → Option (Machine × ℕ)
  step m c b =
      if is_ground m.parser.state
      then ground m c b
      else elim (in_sequence m.parser.state m c) [ none ↦ none | some m' ↦ some (m', 0) ]

  -- The loop, with the number of bytes that were taken already.
  unfoldable pub feed_from : ℕ → Machine → List ℕ → Option Machine
  feed_from skip m [] = some m
  feed_from zero m (c ∷ b) = elim (step m c b) [
    | none ↦ none
    | some (m', extra) ↦ feed_from extra m' b
  ]
  feed_from (suc skip) m (c ∷ b) = feed_from skip m b

  unfoldable pub feed : Machine → List ℕ → Option Machine
  feed m b = feed_from 0 m b
