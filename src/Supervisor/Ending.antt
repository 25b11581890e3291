-- ===== src/Supervisor/Ending.antt =====
-- internal/fabric/supervisor.go: an end is for good.
use gozellij.Prelude.{◌<◌, ◌≡◌, refl, subst, ◌∙◌, Bool, true, arith, if_elim}
use gozellij.Supervisor.{State, Status, Supervisor, Process, Point, Service, new_supervisor}
use gozellij.Supervisor
use gozellij.Supervisor.Steps.{Loop, Call, Reach}
use gozellij.Supervisor.Steps
use gozellij.Supervisor.Stopping.{steps_left, Loop-busy}

-- What an end leaves for good.
abbrev pub Remains : Supervisor → Supervisor → Type 0
Remains s u =
    (u.at ≡ s.at)
    × (u.started ≡ s.started)
    × (u.status.state ≡ s.status.state)
    × (u.status.ended ≡ s.status.ended)
    × (u.cur ≡ s.cur)

Call-Remains : {t u : Supervisor} → Call t u → t.started ≡ true → Remains t u
unfolding Supervisor.start Supervisor.stop Supervisor.redefine Supervisor.rename
    Supervisor.rename_status
Call-Remains (Steps.starts t) b =
    if_elim (λ (x : Supervisor × Bool). Remains t x.0) t.started _ _
      (λ _. (refl, refl, refl, refl, refl)) (λ fresh. absurd (ground arith))
Call-Remains (Steps.stops t) b =
    if_elim (Remains t) t.started _ _ (λ _. (refl, refl, refl, refl, refl))
      (λ _. (refl, refl, refl, refl, refl))
Call-Remains (Steps.hands_over t p) b = (refl, refl, refl, refl, refl)
Call-Remains (Steps.redefines t def) b = (refl, refl, refl, refl, refl)
Call-Remains (Steps.renames t to) b = (refl, refl, refl, refl, refl)
Call-Remains (Steps.relabels t to) b = (refl, refl, refl, refl, refl)

not_busy : (t : Supervisor) → t.at ≡ Point.finished → ¬ (0 < steps_left t.at)
not_busy t over left = omega (arith, subst (λ x. 0 < steps_left x) over left)

Reach-Remains :
    {s u : Supervisor} → Reach s u → s.at ≡ Point.finished → s.started ≡ true → Remains s u
Reach-Remains Steps.here e b = (refl, refl, refl, refl, refl)
Reach-Remains (Steps.loops {t} r l) e b =
    absurd (not_busy t ((Reach-Remains r e b).0 ∙ e) (Loop-busy l))
Reach-Remains (Steps.calls r c) e b =
    let (at, on, state, ended, cur) = Reach-Remains r e b in
    let (at', on', state', ended', cur') = Call-Remains c (on ∙ b) in
    (at' ∙ at, on' ∙ on, state' ∙ state, ended' ∙ ended, cur' ∙ cur)

-- Once the loop of a supervisor has finished, no call starts it again or changes the state that it
-- ended in, and it holds no other process.
pub Reach-finished :
    (s u : Supervisor) → Reach s u → s.at ≡ Point.finished → s.started ≡ true → Remains s u
Reach-finished s u r e b = Reach-Remains r e b
