-- ===== src/Registry/Files.antt =====
-- internal/fabric/service.go: a directory as the files in it, by their names.
use gozellij.Prelude.{
  same_text, ℕ, ◌≡◌, refl, ap₂, ◌∙◌, inl, inr, Bool, true, false, Option, none, some, List, [], ◌∷◌,
  arith, if◌then◌else◌, Bool-cases,
}

module _ {ℓ} {V : Type ℓ} where
  unfoldable pub file_get : List (List ℕ × V) → List ℕ → Option V
  file_get [] n = none
  file_get ((k, v) ∷ m) n = if same_text k n then some v else file_get m n

  unfoldable pub file_delete : List (List ℕ × V) → List ℕ → List (List ℕ × V)
  file_delete [] n = []
  file_delete ((k, v) ∷ m) n =
      let rest = file_delete m n in if same_text k n then rest else (k, v) ∷ rest

  unfoldable pub file_set : List (List ℕ × V) → List ℕ → V → List (List ℕ × V)
  file_set m n v = (n, v) ∷ file_delete m n

pub same_text_eq : (s t : List ℕ) → same_text s t ≡ true → s ≡ t
same_text_eq [] [] h = refl
same_text_eq [] (d ∷ t) h = absurd (ground arith)
same_text_eq (c ∷ s) [] h = absurd (ground arith)
same_text_eq (c ∷ s) (d ∷ t) h = ap₂ (λ x y. x ∷ y) (ground arith) (same_text_eq s t (ground arith))

pub same_text_refl : (s : List ℕ) → same_text s s ≡ true
same_text_refl [] = refl
same_text_refl (c ∷ s) = ground (arith, same_text_refl s)

module _ {ℓ} {V : Type ℓ} where
  twice :
      (b : Bool) (v : V) (o : Option V)
      → (if b then none else o) ≡ (if b then none else (if b then some v else o))
  twice true v o = refl
  twice false v o = refl

  pub file_get-file_delete :
      (m : List (List ℕ × V)) (n k : List ℕ)
      → file_get (file_delete m n) k ≡ (if same_text n k then none else file_get m k)
  unfolding file_get file_delete
  file_get-file_delete [] n k = ground arith
  file_get-file_delete ((j, v) ∷ m) n k = elim (Bool-cases (same_text j n)) [
    | inl e ↦ rw e (
        rw (same_text_eq j n e)
          (file_get-file_delete m n k ∙ twice (same_text n k) v (file_get m k)))
    | inr e ↦ rw e (elim (Bool-cases (same_text n k)) [
      | inl f ↦
          rw (f, ← same_text_eq n k f, e) (file_get-file_delete m n n ∙ rw (same_text_refl n) refl)
      | inr f ↦ rw f (elim (Bool-cases (same_text j k)) [
        | inl g ↦ rw g refl
        | inr g ↦ rw g (file_get-file_delete m n k ∙ rw f refl)
      ])
    ])
  ]

  pub file_get-file_set :
      (m : List (List ℕ × V)) (n : List ℕ) (v : V) (k : List ℕ)
      → file_get (file_set m n v) k ≡ (if same_text n k then some v else file_get m k)
  unfolding file_get file_set
  file_get-file_set m n v k = elim (Bool-cases (same_text n k)) [
    | inl e ↦ rw e refl
    | inr e ↦ rw e (file_get-file_delete m n k ∙ rw e refl)
  ]
