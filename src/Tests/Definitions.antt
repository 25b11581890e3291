-- ===== src/Tests/Definitions.antt =====
-- internal/fabric/service.go: a definition that is put, read back and removed.
use gozellij.Prelude.{
  All, ℕ, ◌≤◌, ◌≡◌, refl, ◌≢◌, ◌⊎◌, inl, inr, Bool, true, false, Option, none, some, List, [], ◌∷◌,
  length,
}
use gozellij.Restart
use gozellij.Supervisor.{Service}
use gozellij.Registry.{
  Dir, Error, Fault, valid_service_name, put_service, add_service, get_service, remove_service,
  stamped, path, temp_name, validate, write_service,
}
use gozellij.Registry
use gozellij.Registry.Files.{file_get}
use gozellij.Registry.Removing.{get_service-remove_service}
use gozellij.Registry.Names.{IsPlain, valid_service_name-IsPlain}
use gozellij.Registry.Definitions.{
  Written, put_service_lem, get_service-put_service, add_service_lem,
}

abbrev editor : List ℕ
editor = b'v' ∷ b'i' ∷ []

abbrev editing : Service
editing = record {
  name = editor;
  command = b'v' ∷ b'i' ∷ b'm' ∷ [];
  args = [];
  dir = [];
  env = [];
  restart = Restart.never;
  enabled = true;
  no_log = false;
  close_on_exit = false;
  auto_name = false;
  order = 0;
  created_at = 0;
}

-- An encoding that knows this one definition.
abbrev encoded : Service → List ℕ
encoded s = b'e' ∷ []

abbrev decoded : List ℕ → Option Service
decoded bytes = some (record editing { created_at = 9 })

abbrev other_file : Dir
other_file = (b'x' ∷ [], b'y' ∷ []) ∷ []

abbrev chosen : List ℕ
chosen = b'1' ∷ []

valid_editor : valid_service_name editor ≡ none
unfolding valid_service_name Registry.matches_name Registry.all_in_name
valid_editor = refl

valid_service_name-IsPlain_example : (1 ≤ length editor) × (length editor ≤ 64) × All IsPlain editor
valid_service_name-IsPlain_example = valid_service_name-IsPlain editor valid_editor

fresh_name : file_get other_file (temp_name editor chosen) ≡ none
unfolding file_get
fresh_name = refl

-- A write whose sync fails, and whose file cannot be removed again.
put_service_lem_example :
    Written encoded decoded other_file
      (stamped editing 9)
      (temp_name editor chosen)
      (some [])
      (b'x' ∷ [])
      (put_service encoded decoded other_file editing 9 chosen (some Registry.syncing) (some []))
put_service_lem_example =
    put_service_lem encoded decoded other_file editing 9 chosen (b'x' ∷ []) (some Registry.syncing)
      (some []) fresh_name

undone : decoded (encoded (stamped editing 9)) ≡ some (stamped editing 9)
unfolding stamped
undone = refl

put_there : (put_service encoded decoded other_file editing 9 chosen none none).1 ≡ none
unfolding put_service validate valid_service_name write_service Registry.matches_name
    Registry.all_in_name Registry.valid_env
put_there = refl

get_service-put_service_example :
    get_service encoded decoded
      (put_service encoded decoded other_file editing 9 chosen none none).0
      editor
      false
    ≡ inl (stamped editing 9)
get_service-put_service_example =
    get_service-put_service encoded decoded other_file editing 9 chosen none none fresh_name undone
      put_there

add_service_lem_example :
    let r = add_service encoded decoded other_file editing 9 chosen false none none in
    ((◌≡◌ {A = Bool} false false)
      × (file_get other_file (path editor) ≡ none)
      × (r ≡ put_service encoded decoded other_file editing 9 chosen none none))
    ⊎ (((◌≡◌ {A = Bool} false true)
          ⊎ ((bytes : List ℕ) × (file_get other_file (path editor) ≡ some bytes)))
        × ((r.0 ≡ other_file) × ((err : Error) × (r.1 ≡ some err))))
add_service_lem_example =
    add_service_lem encoded decoded other_file editing 9 chosen false none none

-- The directory with the definition in it.
abbrev kept : Dir
kept = (put_service encoded decoded other_file editing 9 chosen none none).0

get_service-remove_service_example :
    let r = remove_service kept editor false in
    ((◌≡◌ {A = Bool} false false)
      × (r.1 ≡ none)
      × (get_service encoded decoded r.0 editor false ≡ inr (Registry.no_such_service editor))
      × ((other : List ℕ) (read_fails : Bool)
          → other ≢ editor
          → get_service encoded decoded r.0 other read_fails
            ≡ get_service encoded decoded kept other read_fails))
    ⊎ ((◌≡◌ {A = Bool} false true) × ((e : Error) × (r.1 ≡ some e)) × (r.0 ≡ kept))
get_service-remove_service_example =
    get_service-remove_service encoded decoded kept editor (stamped editing 9) false
      get_service-put_service_example
