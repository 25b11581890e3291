-- ===== src/PrefixKey/Labels.antt =====
-- internal/status/prefix.go: the keys that are read, and the labels that are written.
use gozellij.Prelude.{
  All, ℕ, ◌+◌, ◌≤◌, ◌≡◌, refl, sym, ap, ◌∙◌, inl, inr, ◌&&◌, none, some, List, [], ◌∷◌, map, arith,
  leb, if◌then◌else◌, Option-cases,
}
use gozellij.PrefixKey.{
  Texts, spellings, cut_prefix, cut_any, control_of, only_control, numbered, parse_text,
  parse_prefix, ctrl_label, prefix_label,
}

control_of-bound : (c b : ℕ) → control_of c ≡ some b → b ≤ 31
unfolding control_of
control_of-bound c b h = ground arith

only_control-bound : (t : List ℕ) (b : ℕ) → only_control t ≡ some b → b ≤ 31
unfolding only_control
only_control-bound [] b h = absurd (ground arith)
only_control-bound (c ∷ []) b h = control_of-bound c b h
only_control-bound (c ∷ d ∷ t) b h = absurd (ground arith)

numbered-bound : (n b : ℕ) → numbered n ≡ some b → b ≤ 31
unfolding numbered
numbered-bound n b h = ground arith

parse_text-number :
    (x : Texts) (c n : ℕ) (t : List ℕ)
    → x.parse_uint (c ∷ t) ≡ some n
    → parse_text x (c ∷ t) ≡ numbered n
unfolding parse_text
parse_text-number x c n t e = rw (parse_text, e) refl

parse_text-control :
    (x : Texts) (c : ℕ) (t : List ℕ)
    → x.parse_uint (c ∷ t) ≡ none
    → parse_text x (c ∷ t) ≡ only_control (cut_any spellings (x.to_lower (c ∷ t)))
unfolding parse_text
parse_text-control x c t e = rw (parse_text, e) refl

parse_text-bound : (x : Texts) (t : List ℕ) (b : ℕ) → parse_text x t ≡ some b → b ≤ 31
parse_text-bound x [] b h = absurd (unfold parse_text in ground arith)
parse_text-bound x (c ∷ t) b h = elim (Option-cases (x.parse_uint (c ∷ t))) [
  | inl e ↦
      only_control-bound (cut_any spellings (x.to_lower (c ∷ t))) b
        (sym (parse_text-control x c t e) ∙ h)
  | inr (n, e) ↦ numbered-bound n b (sym (parse_text-number x c n t e) ∙ h)
]

-- A key that is accepted, however it is spelled, is a control character.
pub parse_prefix-bound : (x : Texts) (s : List ℕ) (b : ℕ) → parse_prefix x s ≡ some b → b ≤ 31
unfolding parse_prefix
parse_prefix-bound x s b h = parse_text-bound x (x.trim_space s) b h

-- The small letter of a capital of ASCII.
unfoldable pub small : ℕ → ℕ
small c = if leb b'A' c && leb c b'Z' then c + 32 else c

-- What the packages document of a text of visible characters of ASCII.
pub record Documented (x : Texts) : Type 0 where
  pub trims : (t : List ℕ) → All (λ c. (33 ≤ c) × (c ≤ 126)) t → x.trim_space t ≡ t
  pub lowers : (t : List ℕ) → All (λ c. (33 ≤ c) × (c ≤ 126)) t → x.to_lower t ≡ map small t
  pub letter_first : (c : ℕ) (t : List ℕ) → 58 ≤ c → x.parse_uint (c ∷ t) ≡ none

prefix_label-ctrl : (b : ℕ) → 1 ≤ b → b ≤ 31 → prefix_label b ≡ ctrl_label (64 + b)
unfolding prefix_label
prefix_label-ctrl b l m = ground arith

control_of-small : (b : ℕ) → 1 ≤ b → b ≤ 31 → control_of (small (64 + b)) ≡ some b
unfolding control_of small
control_of-small b l m = ground arith

only_control-cut_any :
    (c : ℕ)
    → only_control (cut_any spellings (b'c' ∷ b't' ∷ b'r' ∷ b'l' ∷ b'-' ∷ c ∷ [])) ≡ control_of c
unfolding only_control cut_any cut_prefix
only_control-cut_any c = refl

lowered : (c : ℕ) → map small (ctrl_label c) ≡ b'c' ∷ b't' ∷ b'r' ∷ b'l' ∷ b'-' ∷ small c ∷ []
unfolding small
lowered c = refl

visible : (c : ℕ) → 33 ≤ c → c ≤ 126 → All (λ c. (33 ≤ c) × (c ≤ 126)) (ctrl_label c)
visible c l m = (
  (omega arith, omega arith),
  (
    (omega arith, omega arith),
    (
      (omega arith, omega arith),
      ((omega arith, omega arith), ((omega arith, omega arith), ((l, m), tt))),
    ),
  ),
)

-- The label of a control key other than NUL is read back as that key, if the packages do with
-- visible characters of ASCII what they document.
pub parse_prefix-prefix_label :
    (x : Texts) (b : ℕ) → Documented x → 1 ≤ b → b ≤ 31 → parse_prefix x (prefix_label b) ≡ some b
unfolding parse_prefix
parse_prefix-prefix_label x b d l m =
    ap (λ t. parse_text x (x.trim_space t)) (prefix_label-ctrl b l m)
    ∙ ap (parse_text x) (d.trims (ctrl_label (64 + b)) v)
    ∙ parse_text-control x b'C' (b't' ∷ b'r' ∷ b'l' ∷ b'-' ∷ (64 + b) ∷ [])
        (d.letter_first b'C' (b't' ∷ b'r' ∷ b'l' ∷ b'-' ∷ (64 + b) ∷ []) (omega arith))
    ∙ ap (λ t. only_control (cut_any spellings t))
        (d.lowers (ctrl_label (64 + b)) v ∙ lowered (64 + b))
    ∙ only_control-cut_any (small (64 + b))
    ∙ control_of-small b l m
  where
    v : All (λ c. (33 ≤ c) × (c ≤ 126)) (ctrl_label (64 + b))
    v = visible (64 + b) (omega arith) (omega arith)
