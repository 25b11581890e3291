-- ===== src/Registry/Definitions.antt =====
-- internal/fabric/service.go: what is written is read back, and nothing else changes.
use gozellij.Prelude.{
  same_text, ℕ, ◌≡◌, refl, sym, ap, subst, ◌∙◌, ◌≢◌, ◌⊎◌, inl, inr, Bool, true, false, Option, none,
  some, List, arith, ◌==◌, if◌then◌else◌, Bool-cases, if_elim, Option-cases,
}
use gozellij.Supervisor.{Service}
use gozellij.Registry.{
  Dir, Fault, Error, path, temp_name, stamped, validate, valid_service_name, put_service,
  add_service, get_service, remove_service, write_service, json_text, clean_up,
}
use gozellij.Registry
use gozellij.Registry.Files.{
  file_get, file_set, file_delete, file_get-file_set, file_get-file_delete, same_text_refl,
  same_text_eq,
}

-- A file that was made and taken away again leaves the others, and its own absence.
made_and_gone :
    (dir : Dir) (temp bytes k : List ℕ)
    → file_get dir temp ≡ none
    → file_get (file_delete (file_set dir temp bytes) temp) k ≡ file_get dir k
made_and_gone dir temp bytes k fresh =
    file_get-file_delete (file_set dir temp bytes) temp k ∙ elim (Bool-cases (same_text temp k)) [
      | inl e ↦ rw e (sym (ap (file_get dir) (sym (same_text_eq temp k e)) ∙ fresh))
      | inr e ↦ rw e (file_get-file_set dir temp bytes k ∙ rw e refl)
    ]

module _ (encode : Service → List ℕ) (decode : List ℕ → Option Service) where
  -- What came of a write: the definition is in place, or every file is as it was, unless the
  -- temporary file could not be taken away and is this one.
  abbrev pub Written :
      Dir → Service → List ℕ → Option (List ℕ) → List ℕ → Dir × Option Error → Type 0
  Written dir s temp left k r =
      ((r.1 ≡ none)
        × (file_get r.0 k
            ≡ (if same_text (path s.name) k then some (encode s) else file_get dir k)))
      ⊎ ((err : Error) × (r.1 ≡ some err)
          × ((file_get r.0 k ≡ file_get dir k)
              ⊎ ((temp ≡ k) × (bytes : List ℕ) × (left ≡ some bytes) × (file_get r.0 k ≡ left))))

  cleaned :
      (dir : Dir) (temp bytes k : List ℕ) (left : Option (List ℕ))
      → file_get dir temp ≡ none
      → let dir' = clean_up dir temp bytes left in
        (file_get dir' k ≡ file_get dir k)
        ⊎ ((temp ≡ k) × (part : List ℕ) × (left ≡ some part) × (file_get dir' k ≡ left))
  unfolding clean_up
  cleaned dir temp bytes k none fresh = inl (made_and_gone dir temp bytes k fresh)
  cleaned dir temp bytes k (some part) fresh = elim (Bool-cases (same_text temp k)) [
    | inl e ↦ inr (same_text_eq temp k e, part, refl, file_get-file_set dir temp part k ∙ rw e refl)
    | inr e ↦ inl (file_get-file_set dir temp part k ∙ rw e refl)
  ]

  write_service_lem :
      (dir : Dir) (s : Service) (digits k : List ℕ) (fault : Option Fault) (left : Option (List ℕ))
      → file_get dir (temp_name s.name digits) ≡ none
      → Written dir s
          (temp_name s.name digits)
          left
          k
          (write_service encode decode dir s digits fault left)
  unfolding write_service
  write_service_lem dir s digits k none left fresh = inl (
    refl,
    file_get-file_set _ (path s.name) (encode s) k
        ∙ ap (λ o. if same_text (path s.name) k then some (encode s) else o)
            (made_and_gone dir (temp_name s.name digits) (encode s) k fresh),
  )
  write_service_lem dir s digits k (some Registry.encoding) left fresh = inr (_, refl, inl refl)
  write_service_lem dir s digits k (some Registry.creating) left fresh = inr (_, refl, inl refl)
  write_service_lem dir s digits k (some fault) left fresh =
      inr (_, refl, cleaned dir (temp_name s.name digits) (encode s) k left fresh)

  name-stamped : (s : Service) (now : ℕ) → (stamped s now).name ≡ s.name
  unfolding stamped
  name-stamped s now =
      if_elim (λ (x : Service). x.name ≡ s.name) (s.created_at == 0) _ s (λ _. refl) (λ _. refl)

  -- Putting a definition either succeeds, and then its file has what encodes it with the time of its
  -- creation and every other file is as it was; or fails, whether it is refused or a system call
  -- fails on the way, and then every file is as it was, except that the temporary file stays when
  -- it cannot be removed either. The temporary file has a fresh name.
  pub put_service_lem :
      (dir : Dir) (s : Service) (now : ℕ) (digits k : List ℕ) (fault : Option Fault)
      (left : Option (List ℕ))
      → file_get dir (temp_name s.name digits) ≡ none
      → Written dir
          (stamped s now)
          (temp_name s.name digits)
          left
          k
          (put_service encode decode dir s now digits fault left)
  unfolding put_service
  put_service_lem dir s now digits k fault left fresh = elim (Option-cases (validate s)) [
    | inr (err, e) ↦ rw (put_service, e) (inr (err, refl, inl refl))
    | inl e ↦
        rw (put_service, e)
          (subst
            (λ n.
              Written dir (stamped s now) (temp_name n digits) left k
                (write_service encode decode dir (stamped s now) digits fault left))
            (name-stamped s now)
            (write_service_lem dir (stamped s now) digits k fault left
              (ap (λ x. file_get dir (temp_name x digits)) (name-stamped s now) ∙ fresh)))
  ]

  not_none : (err : Error) → some err ≢ none
  not_none err e = ground arith

  -- A definition that validates has a valid name.
  validate-name : (s : Service) → validate s ≡ none → valid_service_name s.name ≡ none
  unfolding validate
  validate-name s h = elim (Option-cases (valid_service_name s.name)) [
    | inl e ↦ e
    | inr (err, e) ↦ absurd (not_none err (sym (refused err e) ∙ h))
  ]
    where
      refused : (err : Error) → valid_service_name s.name ≡ some err → validate s ≡ some err
      refused err e = rw (validate, e) refl

  put_service-validate :
      (dir : Dir) (s : Service) (now : ℕ) (digits : List ℕ) (fault : Option Fault)
      (left : Option (List ℕ))
      → (put_service encode decode dir s now digits fault left).1 ≡ none
      → validate s ≡ none
  unfolding put_service
  put_service-validate dir s now digits fault left done = elim (Option-cases (validate s)) [
    | inl e ↦ e
    | inr (err, e) ↦ absurd (not_none err (sym (refused err e) ∙ done))
  ]
    where
      refused :
          (err : Error)
          → validate s ≡ some err
          → (put_service encode decode dir s now digits fault left).1 ≡ some err
      refused err e = rw (put_service, e) refl

  put_service-there :
      (dir : Dir) (s : Service) (now : ℕ) (digits : List ℕ) (fault : Option Fault)
      (left : Option (List ℕ))
      → file_get dir (temp_name s.name digits) ≡ none
      → (put_service encode decode dir s now digits fault left).1 ≡ none
      → file_get (put_service encode decode dir s now digits fault left).0 (path s.name)
        ≡ some (encode (stamped s now))
  put_service-there dir s now digits fault left fresh done =
      elim (put_service_lem dir s now digits (path s.name) fault left fresh) [
        | inl (ok, there) ↦ there ∙ rw (name-stamped s now) (rw (same_text_refl (path s.name)) refl)
        | inr (err, e, kept) ↦ absurd (not_none err (sym e ∙ done))
      ]

  -- A definition that was put is what the registry then gets under its name, if its file can be
  -- read and reading undoes writing for it.
  pub get_service-put_service :
      (dir : Dir) (s : Service) (now : ℕ) (digits : List ℕ) (fault : Option Fault)
      (left : Option (List ℕ))
      → file_get dir (temp_name s.name digits) ≡ none
      → decode (encode (stamped s now)) ≡ some (stamped s now)
      → (put_service encode decode dir s now digits fault left).1 ≡ none
      → get_service encode decode
          (put_service encode decode dir s now digits fault left).0
          s.name
          false
        ≡ inl (stamped s now)
  unfolding get_service
  get_service-put_service dir s now digits fault left fresh undoes done =
      rw
        (
          get_service,
          validate-name s (put_service-validate dir s now digits fault left done),
          put_service-there dir s now digits fault left fresh done,
          undoes,
        )
        refl

  -- Adding does what putting does where it is certain that there is no definition of the name. Where
  -- there is one, or where that cannot be found out, it fails and every file is as it was.
  pub add_service_lem :
      (dir : Dir) (s : Service) (now : ℕ) (digits : List ℕ) (stat_fails : Bool)
      (fault : Option Fault) (left : Option (List ℕ))
      → let r = add_service encode decode dir s now digits stat_fails fault left in
        ((stat_fails ≡ false)
          × (file_get dir (path s.name) ≡ none)
          × (r ≡ put_service encode decode dir s now digits fault left))
        ⊎ (((stat_fails ≡ true) ⊎ ((bytes : List ℕ) × (file_get dir (path s.name) ≡ some bytes)))
            × ((r.0 ≡ dir) × ((err : Error) × (r.1 ≡ some err))))
  unfolding add_service put_service
  add_service_lem dir s now digits true fault left = inr (
    inl refl,
    elim (Option-cases (validate s)) [
      | inl v ↦ rw (add_service, v) (refl, (_, refl))
      | inr (err, v) ↦ rw (add_service, v) (refl, (err, refl))
    ],
  )
  add_service_lem dir s now digits false fault left =
      elim (Option-cases (file_get dir (path s.name))) [
        | inl e ↦ inl (
          refl,
          e,
          elim (Option-cases (validate s)) [
            | inl v ↦ rw (add_service, put_service, v, e) refl
            | inr (err, v) ↦ rw (add_service, put_service, v) refl
          ],
        )
        | inr (bytes, e) ↦ inr (
          inr (bytes, e),
          elim (Option-cases (validate s)) [
            | inl v ↦ rw (add_service, v, e) (refl, (_, refl))
            | inr (err, v) ↦ rw (add_service, v) (refl, (err, refl))
          ],
        )
      ]
