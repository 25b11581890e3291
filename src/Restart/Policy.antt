-- ===== src/Restart/Policy.antt =====
-- internal/fabric/restart.go: the policies, as text and as decisions.
use gozellij.Prelude.{
  ℕ, ◌≡◌, refl, ◌≢◌, ◌↔◌, ◌⊎◌, inl, inr, true, List, [], ◌∷◌, arith, Bool-cases, same_text,
}
use gozellij.Restart.{
  RestartPolicy, never, on_failure, always, Exit, parsed, policy_string, parse_restart_policy,
  clean, should_restart,
}

-- A policy survives being written and read back.
pub parse_restart_policy-policy_string :
    (p : RestartPolicy) → parse_restart_policy (policy_string p) ≡ parsed p
unfolding parse_restart_policy policy_string
parse_restart_policy-policy_string never = refl
parse_restart_policy-policy_string on_failure = refl
parse_restart_policy-policy_string always = refl

same_text-nil_iff : (s : List ℕ) → (same_text s [] ≡ true) ↔ (s ≡ [])
same_text-nil_iff [] = ground arith
same_text-nil_iff (c ∷ s) = ground arith

clean_iff : (e : Exit) → (clean e ≡ true) ↔ ((e.code ≡ 0) × (e.signal ≡ []))
unfolding clean
clean_iff e = ground (arith, same_text-nil_iff e.signal)

-- A process is restarted exactly when its policy is `always`, or is `on-failure` and it ended with
-- a code other than 0 or by a signal.
pub should_restart_iff :
    (p : RestartPolicy) (e : Exit)
    → (should_restart p e ≡ true)
      ↔ ((p ≡ always) ⊎ ((p ≡ on_failure) × ((e.code ≢ 0) ⊎ (e.signal ≢ []))))
unfolding should_restart clean
should_restart_iff never e = ground arith
should_restart_iff on_failure e = elim (Bool-cases (clean e)) [
  | inl c ↦ rw c (ground (arith, clean_iff e))
  | inr c ↦ rw c (ground (arith, clean_iff e))
]
should_restart_iff always e = ground arith
