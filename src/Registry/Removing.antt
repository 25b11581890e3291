-- ===== src/Registry/Removing.antt =====
-- internal/fabric/service.go: a definition that is removed.
use gozellij.Prelude.{
  same_text, ℕ, ◌-◌, ◌≡◌, refl, sym, ap, ◌∙◌, ◌≢◌, ◌⊎◌, inl, inr, Bool, true, false, Option, none,
  some, List, [], ◌∷◌, ◌++◌, arith, Bool-cases, Option-cases, length, take, length-append,
}
use gozellij.Supervisor.{Service}
use gozellij.Registry.{Dir, Error, path, valid_service_name, get_service, remove_service, json_text}
use gozellij.Registry
use gozellij.Registry.Files.{
  file_get, file_delete, file_get-file_delete, same_text_refl, same_text_eq,
}

take_whole : (s t : List ℕ) → take (length s) (s ++ t) ≡ s
take_whole [] t = refl
take_whole (c ∷ s) t = rw (take_whole s t) refl

-- The file of another name is another file.
path-injective : (a b : List ℕ) → path a ≡ path b → a ≡ b
path-injective a b e = sym (take_path a) ∙ ap (λ t. take (length t - 5) t) e ∙ take_path b
  where
    take_path : (n : List ℕ) → take (length (path n) - 5) (path n) ≡ n
    take_path n =
        ap (λ k. take k (path n)) (omega (arith, length-append n json_text))
        ∙ take_whole n json_text

same_path : (a b : List ℕ) → b ≢ a → same_text (path a) (path b) ≡ false
same_path a b differ = elim (Bool-cases (same_text (path a) (path b))) [
  | inl e ↦ absurd (differ (sym (path-injective a b (same_text_eq (path a) (path b) e))))
  | inr e ↦ e
]

module _ (encode : Service → List ℕ) (decode : List ℕ → Option Service) where
  get_service-valid :
      (dir : Dir) (name : List ℕ) (s : Service)
      → get_service encode decode dir name false ≡ inl s
      → (valid_service_name name ≡ none)
        × ((bytes : List ℕ) × (file_get dir (path name) ≡ some bytes))
  unfolding get_service
  get_service-valid dir name s h = elim (Option-cases (valid_service_name name)) [
    | inr (err, e) ↦ absurd (not_got err (sym (rw (get_service, e) refl) ∙ h))
    | inl e ↦ (
      e,
      elim (Option-cases (file_get dir (path name))) [
        | inr there ↦ there
        | inl f ↦
            absurd (not_got (Registry.no_such_service name) (sym (rw (get_service, e, f) refl) ∙ h))
      ],
    )
  ]
    where
      not_got : (err : Error) → inr err ≢ inl s
      not_got err e = ground arith

  get_service-alike :
      (dir dir' : Dir) (name : List ℕ) (fails : Bool)
      → file_get dir (path name) ≡ file_get dir' (path name)
      → get_service encode decode dir name fails ≡ get_service encode decode dir' name fails
  unfolding get_service
  get_service-alike dir dir' name fails e = elim (Option-cases (valid_service_name name)) [
    | inr (err, v) ↦ rw (get_service, v) refl
    | inl v ↦ rw (get_service, v, e) refl
  ]

  get_service-missing :
      (dir : Dir) (name : List ℕ)
      → valid_service_name name ≡ none
      → file_get dir (path name) ≡ none
      → get_service encode decode dir name false ≡ inr (Registry.no_such_service name)
  unfolding get_service
  get_service-missing dir name valid gone = rw (get_service, valid, gone) refl

  -- A definition that the registry gets can be removed: unless the system call fails, the removal
  -- succeeds, the definition is then not found any more, and every other name is read as before,
  -- whatever reading it gives. A removal that reports an error has changed nothing.
  pub get_service-remove_service :
      (dir : Dir) (name : List ℕ) (s : Service) (remove_fails : Bool)
      → get_service encode decode dir name false ≡ inl s
      → let (dir', err) = remove_service dir name remove_fails in
        ((remove_fails ≡ false)
          × (err ≡ none)
          × (get_service encode decode dir' name false ≡ inr (Registry.no_such_service name))
          × ((other : List ℕ) (read_fails : Bool)
              → other ≢ name
              → get_service encode decode dir' other read_fails
                ≡ get_service encode decode dir other read_fails))
        ⊎ ((remove_fails ≡ true) × ((e : Error) × (err ≡ some e)) × (dir' ≡ dir))
  unfolding remove_service
  get_service-remove_service dir name s true h =
      let (valid, there) = get_service-valid dir name s h in
      rw (remove_service, valid) (inr (refl, (_, refl), refl))
  get_service-remove_service dir name s false h =
      let (valid, (bytes, there)) = get_service-valid dir name s h in
      rw (remove_service, valid, there)
        (inl (
          refl,
          refl,
          get_service-missing _ name valid (
              file_get-file_delete dir (path name) (path name)
              ∙ rw (same_text_refl (path name)) refl),
          λ other read_fails differ.
              get_service-alike (file_delete dir (path name)) dir other read_fails (
                file_get-file_delete dir (path name) (path other)
                ∙ rw (same_path name other differ) refl),
        ))
