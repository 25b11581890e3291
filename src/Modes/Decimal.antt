-- ===== src/Modes/Decimal.antt =====
-- internal/fabric/termmodes.go: a mode sequence is read as the mode that it was written for.
use gozellij.Prelude.{
  ℕ, zero, suc, ◌+◌, ◌-◌, ◌*◌, ◌/◌, ◌%◌, ◌^◌, ◌≤◌, ◌<◌, ◌≡◌, refl, ap, ◌∙◌, inl, inr, Bool, true,
  false, some, List, [], ◌∷◌, ◌++◌, append_assoc, arith, ltb, if◌then◌else◌, Bool-cases, length,
  set, drop, ltb→lt, lt→ltb,
}
use native.Mathlib.Nat.{pow-suc}
use gozellij.Modes.{
  TermModes, split_fields, decimal, atoi, switch, switch_all, params, private_mode, escape_csi,
  escape, from_esc, scan, itoa, mode_seq, read, esc, is_digit,
}

abbrev pub AllDigits : List ℕ → Type 0
AllDigits [] = Unit {0}
AllDigits (c ∷ s) = (is_digit c ≡ true) × AllDigits s

AllDigits-append : (xs ys : List ℕ) → AllDigits xs → AllDigits ys → AllDigits (xs ++ ys)
AllDigits-append [] ys a b = b
AllDigits-append (x ∷ xs) ys a b = (a.0, AllDigits-append xs ys a.1 b)

digit : (n : ℕ) → n < 10 → is_digit (n + b'0') ≡ true
digit n h = ground arith

itoa-AllDigits : (fuel n : ℕ) → AllDigits (itoa fuel n)
unfolding itoa
itoa-AllDigits zero n = tt
itoa-AllDigits (suc fuel) n = elim (Bool-cases (ltb n 10)) [
  | inl small ↦ rw small (digit n (ltb→lt n 10 small), tt)
  | inr large ↦ rw large (
      AllDigits-append (itoa fuel (n / 10)) _ (itoa-AllDigits fuel (n / 10))
        (digit (n % 10) (omega arith), tt))
]

decimal-snoc :
    (acc : ℕ) (s : List ℕ) (c : ℕ) → decimal acc (s ++ c ∷ []) ≡ decimal acc s * 10 + (c - b'0')
unfolding decimal
decimal-snoc acc [] c = refl
decimal-snoc acc (d ∷ s) c = decimal-snoc (acc * 10 + (d - b'0')) s c

decimal-itoa : (fuel n : ℕ) → n < 10 ^ fuel → decimal 0 (itoa fuel n) ≡ n
unfolding itoa
decimal-itoa zero n h = unfold decimal in omega arith
decimal-itoa (suc fuel) n h = elim (Bool-cases (ltb n 10)) [
  | inl small ↦ rw small (unfold decimal in omega arith)
  | inr large ↦ rw large (
      decimal-snoc 0 (itoa fuel (n / 10)) (n % 10 + b'0')
      ∙ omega (arith, decimal-itoa fuel (n / 10) (omega (arith, pow-suc 10 fuel))))
]

-- A text of digits is one field, and is the parameters in front of anything else.
split_fields_digits : (s : List ℕ) → AllDigits s → split_fields s ≡ s ∷ []
unfolding split_fields
split_fields_digits [] a = refl
split_fields_digits (c ∷ s) a = ground (arith, split_fields_digits s a.1)

params_digits :
    (s : List ℕ) (c : ℕ) (rest : List ℕ)
    → AllDigits s
    → b'a' ≤ c
    → params (s ++ c ∷ rest) ≡ (s, c ∷ rest)
unfolding params
params_digits [] c rest a h = ground arith
params_digits (d ∷ s) c rest a h = ground (arith, params_digits s c rest a.1 h)

drop_params : (s : List ℕ) (c : ℕ) (rest : List ℕ) → drop (suc (length s)) (s ++ c ∷ rest) ≡ rest
drop_params [] c rest = refl
drop_params (d ∷ s) c rest = drop_params s c rest

abbrev pub final_of : Bool → ℕ
final_of set = if set then b'h' else b'l'

snoc_shape : (xs : List ℕ) (x : ℕ) → (c : ℕ) × (s : List ℕ) × (xs ++ x ∷ [] ≡ c ∷ s)
snoc_shape [] x = (x, [], refl)
snoc_shape (y ∷ xs) x = (y, xs ++ x ∷ [], refl)

final_high : (set : Bool) → b'a' ≤ final_of set
final_high true = omega arith
final_high false = omega arith

itoa_shape : (fuel n : ℕ) → (c : ℕ) × (s : List ℕ) × (itoa (suc fuel) n ≡ c ∷ s)
unfolding itoa
itoa_shape fuel n = elim (Bool-cases (ltb n 10)) [
  | inl small ↦ rw small (n + b'0', [], refl)
  | inr large ↦ rw large (snoc_shape (itoa fuel (n / 10)) (n % 10 + b'0'))
]

atoi-itoa : (fuel n : ℕ) → n < 10 ^ suc fuel → n < 2 ^ 63 → atoi (itoa (suc fuel) n) ≡ some n
unfolding atoi
atoi-itoa fuel n h small =
    let (c, s, e) = itoa_shape fuel n in
    rw e (rw (← e, decimal-itoa (suc fuel) n h, lt→ltb n (2 ^ 63) small))

private_mode_seq :
    (t : TermModes) (s : List ℕ) (n : ℕ) (set : Bool) (rest : List ℕ)
    → split_fields s ≡ s ∷ []
    → atoi s ≡ some n
    → private_mode t (s, final_of set ∷ rest)
      ≡ read (record t { on = switch t.on set (some n) }) (length s + 4)
unfolding private_mode switch_all
private_mode_seq t s n true rest e a = rw (e, switch_all) (rw a)
private_mode_seq t s n false rest e a = rw (e, switch_all) (rw a)

escape-mode_seq :
    (t : TermModes) (n : ℕ) (set : Bool) (rest : List ℕ)
    → n < 2 ^ 63
    → escape t (esc ∷ b'[' ∷ b'?' ∷ itoa 19 n ++ final_of set ∷ rest)
      ≡ read (record t { on = switch t.on set (some n) }) (length (itoa 19 n) + 4)
unfolding escape escape_csi
escape-mode_seq t n set rest h =
    rw (params_digits (itoa 19 n) (final_of set) rest (itoa-AllDigits 19 n) (final_high set)) (
      private_mode_seq t (itoa 19 n) n set rest
        (split_fields_digits (itoa 19 n) (itoa-AllDigits 19 n)) (atoi-itoa 18 n (omega arith) h))

mode_seq-append :
    (n : ℕ) (set : Bool) (rest : List ℕ)
    → mode_seq n set ++ rest ≡ esc ∷ b'[' ∷ b'?' ∷ itoa 19 n ++ final_of set ∷ rest
unfolding mode_seq
mode_seq-append n set rest =
    ap (λ (u : List ℕ). esc ∷ b'[' ∷ b'?' ∷ u) (append_assoc (itoa 19 n) (final_of set ∷ []) rest)

drop_seq :
    (s : List ℕ) (c : ℕ) (rest : List ℕ)
    → drop (length s + 4) (esc ∷ b'[' ∷ b'?' ∷ s ++ c ∷ rest) ≡ rest
drop_seq s c rest =
    ap (λ k. drop k (esc ∷ b'[' ∷ b'?' ∷ s ++ c ∷ rest)) {x = length s + 4}
      {y = suc (suc (suc (suc (length s))))} (omega arith)
    ∙ drop_params s c rest

-- A round of the loop, where the text begins with a sequence that is read whole.
scan_read :
    (fuel : ℕ) (t t' : TermModes) (n : ℕ) (p : List ℕ)
    → escape t (esc ∷ p) ≡ read t' n
    → scan (suc fuel) t (esc ∷ p) ≡ scan fuel t' (drop n (esc ∷ p))
unfolding scan from_esc
scan_read fuel t t' n p e = rw (e, scan)

-- One round of `Feed` reads a mode sequence whole, whatever follows, and switches that mode.
pub scan-mode_seq :
    (fuel : ℕ) (t : TermModes) (n : ℕ) (set : Bool) (rest : List ℕ)
    → n < 2 ^ 63
    → scan (suc fuel) t (mode_seq n set ++ rest)
      ≡ scan fuel (record t { on = switch t.on set (some n) }) rest
scan-mode_seq fuel t n set rest h =
    ap (scan (suc fuel) t) (mode_seq-append n set rest)
    ∙ scan_read fuel t _ (length (itoa 19 n) + 4) _ (escape-mode_seq t n set rest h)
    ∙ ap (scan fuel _) (drop_seq (itoa 19 n) (final_of set) rest)
