-- ===== src/Parser/Safety/Ground.antt =====
-- internal/vt/grid/parser.go: text in the ground state, on a terminal of at least two columns.
use gozellij.Prelude.{
  ℕ, zero, suc, ◌-◌, ◌≤◌, ◌≡◌, refl, sym, subst, Bool, not, ◌&&◌, ◌||◌, Option, none, some, List,
  [], ◌∷◌, arith, ltb, leb, ◌==◌, if◌then◌else◌, if_elim, length,
}
use gozellij.Grid.Term.{Term, Charset}
use gozellij.Parser.State.{Machine}
use gozellij.Parser.Safety.{Ready, Runs}
use gozellij.Parser.Feed
use gozellij.Grid.Term.{charset_ascii, charset_graphics}
use gozellij.Width.{string_width, rune_width}
use gozellij.Grid.Charset.{glyph_at, map_rune, dec_special_graphics, charset_in_use}
use gozellij.Grid.Draw.{put_string, put}
use gozellij.Parser.Safety.Feeding.{Goes, with_term-Goes}
use gozellij.Parser.Lookahead.{alone}
use gozellij.Width.Truncate.{rune_width-le}
use gozellij.Parser.Utf8.{full_rune, decode_rune, rune_error, utf_max, could_complete}
use gozellij.Parser.Safety.Sequences.{AllReady, control-Ready}
use gozellij.Modes.{esc}
use gozellij.Parser.Control.{control}
use gozellij.Parser.Safety.Drawing.{put-Runs, put_string-Runs}

module _ (combining : ℕ → Bool) where
  AllNarrow : Option (List ℕ) → Type 0
  AllNarrow none = Unit
  AllNarrow (some glyph) = string_width combining glyph ≤ 2

  glyph_at-AllNarrow : (glyphs : List ℕ) (i : ℕ) → AllNarrow (glyph_at glyphs i)
  unfolding AllNarrow glyph_at string_width
  glyph_at-AllNarrow [] i = tt
  glyph_at-AllNarrow (g ∷ gs) zero = omega (arith, rune_width-le combining g)
  glyph_at-AllNarrow (g ∷ gs) (suc i) = glyph_at-AllNarrow gs i

  map_rune-AllNarrow : (t : Term) (c : ℕ) → AllNarrow (map_rune t c)
  unfolding map_rune AllNarrow
  map_rune-AllNarrow t c = in_set (charset_in_use t)
    where
      in_set :
          (s : Charset)
          → AllNarrow (elim s [
            | charset_ascii ↦ none
            | charset_graphics ↦
                if leb b'`' c then glyph_at dec_special_graphics (c - b'`') else none
          ])
      in_set charset_ascii = tt
      in_set charset_graphics =
          if_elim AllNarrow (leb b'`' c) _ _
            (λ _. glyph_at-AllNarrow dec_special_graphics (c - b'`')) (λ _. tt)

  draw_ascii-Runs : (t : Term) (c : ℕ) → Ready t → Runs (Feed.draw_ascii combining t c)
  unfolding Feed.draw_ascii AllNarrow
  draw_ascii-Runs t c r = drawn (map_rune t c) (map_rune-AllNarrow t c)
    where
      drawn :
          (o : Option (List ℕ))
          → AllNarrow o
          → Runs (elim o [
            | some glyph ↦ put_string t glyph (string_width combining glyph)
            | none ↦ put t c (rune_width combining c)
          ])
      drawn none h = put-Runs t c (rune_width combining c) r (rune_width-le combining c)
      drawn (some glyph) h = put_string-Runs t glyph (string_width combining glyph) r h

  settle_rune-Goes :
      (m : Machine) (u : List ℕ) → Ready m.term → Goes (Feed.settle_rune combining m u)
  unfolding Feed.settle_rune
  settle_rune-Goes m u r =
      if_elim Goes (full_rune u) _ _
        (λ _.
          if_elim Goes (((decode_rune u).0 == rune_error) && leb (decode_rune u).1 1) _ _
            (λ _. with_term-Goes _ _ (put-Runs m.term rune_error 1 r (omega arith)))
            (λ _.
              with_term-Goes _ _ (
                put-Runs m.term (decode_rune u).0 _ r (rune_width-le combining (decode_rune u).0))))
        (λ _.
          if_elim Goes (leb utf_max (length u) || not (could_complete u)) _ _ (λ _. (_, refl, r))
            (λ _. (_, refl, r)))

  pub alone_extra :
      (o : Option Machine) (n : ℕ) → alone (elim o [ none ↦ none | some m ↦ some (m, n) ]) ≡ o
  unfolding alone
  alone_extra none n = refl
  alone_extra (some m) n = refl

  draw_byte-Goes :
      (m : Machine) (c : ℕ) (b : List ℕ)
      → Ready m.term
      → Goes (alone (Feed.draw_byte combining m c b))
  unfolding Feed.draw_byte
  draw_byte-Goes m c b r =
      if_elim (λ o. Goes (alone o)) (ltb c 0x80) _ _
        (λ _. subst Goes (sym (alone_extra _ 0)) (with_term-Goes _ _ (draw_ascii-Runs m.term c r)))
        (λ _. subst Goes (sym (alone_extra _ _)) (settle_rune-Goes m _ r))

  control_or_draw-Goes :
      (m : Machine) (c : ℕ) (b : List ℕ)
      → Ready m.term
      → Goes (alone (Feed.control_or_draw combining m c b))
  unfolding Feed.control_or_draw alone
  control_or_draw-Goes m c b r = done (control m.term c) (control-Ready m.term c r)
    where
      done :
          (o : Option Term)
          → AllReady o
          → Goes (
              alone (elim o [
                | some t ↦ some (record m { term = t }, 0)
                | none ↦ Feed.draw_byte combining m c b
              ]))
      done none h = draw_byte-Goes m c b r
      done (some t) h = (record m { term = t }, refl, h)

  draw_pending-Goes : (m : Machine) → Ready m.term → Goes (Feed.draw_pending m)
  unfolding Feed.draw_pending
  draw_pending-Goes m r =
      if_elim Goes m.parser.invalid _ _
        (λ _. with_term-Goes _ _ (put-Runs m.term rune_error 1 r (omega arith))) (λ _. (m, refl, r))

  pub ground-Goes :
      (m : Machine) (c : ℕ) (b : List ℕ) → Ready m.term → Goes (alone (Feed.ground combining m c b))
  unfolding Feed.ground alone
  ground-Goes m c b r =
      if_elim (λ o. Goes (alone o)) (c == esc) _ _ (λ _. (_, refl, r))
        (λ _.
          let (m', e, q) = draw_pending-Goes (record m { parser = Feed.cut_rune m.parser c }) r in
          rw e (control_or_draw-Goes m' c b q))
