-- ===== src/Parser/Safety/Feeding.antt =====
-- internal/vt/grid/parser.go: the one way in which a stream takes the emulator out of range.
use gozellij.Prelude.{
  ℕ, ◌≡◌, refl, ap, ◌⊎◌, inl, inr, ◌&&◌, ◌||◌, Option, none, some, List, [], ◌∷◌, arith, ltb, leb,
  ◌==◌, if_elim,
}
use gozellij.Grid.Term.{Term}
use gozellij.Parser.State.{Machine, Parser}
use gozellij.Parser.State
use gozellij.Parser.Safety.{Ready, Runs}
use gozellij.Parser.Csi.{Command}
use gozellij.Parser.Csi
use gozellij.Parser.Safety.Editing.{delete_chars-Runs, insert_chars-Runs}
use gozellij.Grid.Shape.Editing.{Overflows}
use gozellij.Parser.Numbers.{Param, arg, params}
use gozellij.Parser.Safety.Modes.{dispatch_private-Runs}
use gozellij.Parser.Safety.Commands.{perform_plain-Ready}
use gozellij.Modes.{esc}
use gozellij.Parser.Safety.Sequences.{controlled-Ready}

-- The last byte of CSI P or CSI @, with a count that takes the cursor's column past the largest `int`.
abbrev pub OverflowsAt : Machine → ℕ → Type 0
OverflowsAt m c =
    (m.parser.state ≡ State.csi)
    × ((c ≡ b'P') ⊎ (c ≡ b'@'))
    × Overflows m.term (arg (params m.parser.params) 0 1)

abbrev Counts : Command → Type 0
Counts c = (c ≡ Csi.delete_chars) ⊎ (c ≡ Csi.insert_chars)

perform_lem :
    (c : Command) (t : Term) (p : Parser) (final : ℕ) (ps : List Param)
    → Ready t
    → Runs (Csi.perform c t p final ps)
      ⊎ ((Csi.perform c t p final ps ≡ none) × Counts c × Overflows t (arg ps 0 1))
unfolding Csi.perform
perform_lem Csi.delete_chars t p final ps r = elim (delete_chars-Runs t (arg ps 0 1) r) [
  | inl done ↦ inl done
  | inr (panic, over) ↦ inr (panic, inl refl, over)
]
perform_lem Csi.insert_chars t p final ps r = elim (insert_chars-Runs t (arg ps 0 1) r) [
  | inl done ↦ inl done
  | inr (panic, over) ↦ inr (panic, inr refl, over)
]
perform_lem c t p final ps r = inl (_, refl, perform_plain-Ready c t p final ps r)

counting : (c : ℕ) → Counts (Csi.command_of c) → (c ≡ b'P') ⊎ (c ≡ b'@')
unfolding Csi.command_of
counting c h = ground arith

dispatch_lem :
    (t : Term) (p : Parser) (final : ℕ)
    → Ready t
    → Runs (Csi.dispatch t p final)
      ⊎ ((Csi.dispatch t p final ≡ none)
          × Counts (Csi.command_of final)
          × Overflows t (arg (params p.params) 0 1))
unfolding Csi.dispatch Csi.dispatch_from params
dispatch_lem t p final r = from p.params
  where
    from :
        (ps : List ℕ)
        → Runs (Csi.dispatch_from t p final ps)
          ⊎ ((Csi.dispatch_from t p final ps ≡ none)
              × Counts (Csi.command_of final)
              × Overflows t (arg (params ps) 0 1))
    from [] = perform_lem (Csi.command_of final) t p final [] r
    from (c ∷ ps) =
        if_elim
          (λ o.
            Runs o
            ⊎ ((o ≡ none)
                × Counts (Csi.command_of final)
                × Overflows t (arg (params (c ∷ ps)) 0 1)))
          (c == b'?') _ _ (λ _. inl (dispatch_private-Runs t final ps r))
          (λ _. perform_lem (Csi.command_of final) t p final (params (c ∷ ps)) r)

-- A machine after an operation that ends.
abbrev pub Goes : Option Machine → Type 0
Goes o = (m : Machine) × (o ≡ some m) × Ready m.term

pub with_term-Goes : (p : Parser) (o : Option Term) → Runs o → Goes (State.with_term p o)
with_term-Goes p o (t, e, r) = (record { term = t; parser = p }, ap (State.with_term p) e, r)

pub csi_lem :
    (m : Machine) (c : ℕ)
    → m.parser.state ≡ State.csi
    → Ready m.term
    → Goes (Csi.csi m c) ⊎ ((Csi.csi m c ≡ none) × OverflowsAt m c)
unfolding Csi.csi
csi_lem m c s r =
    if_elim Ends (leb 0x30 c && leb c 0x3f) _ _ (λ _. inl (_, refl, r))
      (λ _.
        if_elim Ends (leb 0x20 c && leb c 0x2f) _ _ (λ _. inl (_, refl, r))
          (λ _.
            if_elim Ends (c == esc) _ _ (λ _. inl (_, refl, r))
              (λ _.
                if_elim Ends (ltb c 0x20) _ _ (λ _. inl (_, refl, controlled-Ready m.term c r))
                  (λ _.
                    if_elim Ends (ltb c 0x40 || ltb 0x7e c) _ _ (λ _. inl (_, refl, r))
                      (λ _. elim (dispatch_lem m.term m.parser c r) [
                        | inl runs ↦ inl (with_term-Goes _ _ runs)
                        | inr (panic, counts, over) ↦
                            inr (ap (State.with_term _) panic, (s, counting c counts, over))
                      ])))))
  where
    Ends : Option Machine → Type 0
    Ends o = Goes o ⊎ ((o ≡ none) × OverflowsAt m c)
