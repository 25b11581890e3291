-- ===== src/Registry.antt =====
-- internal/fabric/service.go: what a service may be called, and the directory of definitions.
--
-- The directory is a list of its files' names and contents. What encoding/json writes and reads of
-- a definition are the arguments `encode` and `decode`; a step that fails while a file is
-- written is a `Fault`, and whether another system call fails is an argument. `List` is left out.
pub mod Files
pub mod Names
pub mod Definitions
pub mod Removing
use gozellij.Prelude.{
  same_text, All, All-map, All-set, All-take, All-drop, All-copy, All-append, All-copy_at,
  All-replicate, All-get_or, List-cases, map_get, map_set, map_delete, map_get-map_set,
  map_get-map_delete, ℕ, zero, suc, ◌+◌, ◌-◌, ◌*◌, ◌/◌, ◌%◌, ◌^◌, ◌≤◌, ◌<◌, min, max, ◌≡◌, refl,
  sym, ap, ap₂, subst, ◌∙◌, ◌≡⟨◌⟩◌, ◌∎, ◌≢◌, ◌↔◌, ◌⊎◌, inl, inr, Bool, true, false, not, ◌&&◌, ◌||◌,
  Option, none, some, List, [], ◌∷◌, ◌++◌, map, reverse, append-nil, append_assoc, arith, ltb, leb,
  ◌==◌, if◌then◌else◌, Bool-cases, if_elim, ℕ_discrete, dec_le, dec_lt, pred, Option-cases, length,
  get_elem?, get_or, set, take, drop, replicate, length-replicate, length-copy, length-copy_at,
  get_or-drop, get_or-take, get_or-append_left, get_or-append_right, get_or-copy_new,
  get_or-copy_old, get_or-copy_at_before, get_or-copy_at_in, get_or-copy_at_behind, get_or_ext,
  get_or-set_self, get_or-set_ne, length-set, length-map, mod_cases, mod_step, mod_small, copy,
  copy_at, slice, keep_last, length-append, length-take, length-drop, take-append-drop, ltb→lt,
  lt→ltb, leb→le, le→leb, lt→leb, le→ltb, ==_iff, ==_ne,
}
use gozellij.Restart.{trim_space}
use gozellij.Supervisor.{Service}
use gozellij.Registry.Files.{file_get, file_set, file_delete}

-- The step of `write` that fails.
pub data Fault : Type 0 where
  encoding creating writing syncing closing setting installing : Fault

pub data Error : Type 0 where
  empty_name : Error
  invalid_name no_command service_exists no_such_service invalid_file : List ℕ → Error
  bad_entry : List ℕ → List ℕ → Error
  failed : Fault → Error
  unchecked unreadable not_removed : List ℕ → Error

-- `serviceNamePattern`.
abbrev pub starts_name : ℕ → Bool
starts_name c = (leb b'a' c && leb c b'z') || (leb b'0' c && leb c b'9')

abbrev pub in_name : ℕ → Bool
in_name c = starts_name c || (c == b'_') || (c == b'-')

unfoldable pub all_in_name : List ℕ → Bool
all_in_name [] = true
all_in_name (c ∷ s) = in_name c && all_in_name s

unfoldable pub matches_name : List ℕ → Bool
matches_name [] = false
matches_name (c ∷ s) = starts_name c && leb (length s) 63 && all_in_name s

-- `none` for a name that is valid.
unfoldable pub valid_service_name : List ℕ → Option Error
valid_service_name name =
    if length name == 0
    then some empty_name
    else if not (matches_name name)
    then some (invalid_name name)
    else none

unfoldable pub has_equals : List ℕ → Bool
has_equals [] = false
has_equals (c ∷ s) = (c == b'=') || has_equals s

unfoldable pub valid_env : List ℕ → List (List ℕ) → Option Error
valid_env name [] = none
valid_env name (e ∷ es) =
    let rest = valid_env name es in if has_equals e then rest else some (bad_entry name e)

unfoldable pub validate : Service → Option Error
validate s = elim (valid_service_name s.name) [
  | some err ↦ some err
  | none ↦
      if length (trim_space s.command) == 0
      then some (no_command s.name)
      else valid_env s.name s.env
]

-- A zero `CreatedAt` becomes the time now.
unfoldable pub stamped : Service → ℕ → Service
stamped s now = if s.created_at == 0 then record s { created_at = now } else s

abbrev pub json_text : List ℕ
json_text = b'.' ∷ b'j' ∷ b's' ∷ b'o' ∷ b'n' ∷ []

abbrev pub path : List ℕ → List ℕ
path name = name ++ json_text

abbrev pub Dir : Type 0
Dir = List (List ℕ × List ℕ)

-- What `CreateTemp` calls the file, with the digits that it chose.
abbrev pub temp_name : List ℕ → List ℕ → List ℕ
temp_name name digits = b'.' ∷ name ++ b'.' ∷ digits ++ b'.' ∷ b't' ∷ b'm' ∷ b'p' ∷ []

-- The deferred removal of the temporary file. It is best effort: where it fails, the file stays with
-- what was written of it.
unfoldable pub clean_up : Dir → List ℕ → List ℕ → Option (List ℕ) → Dir
clean_up dir temp bytes none = file_delete (file_set dir temp bytes) temp
clean_up dir temp bytes (some part) = file_set dir temp part

module _ (encode : Service → List ℕ) (decode : List ℕ → Option Service) where
  -- The temporary file comes before the one it becomes.
  unfoldable pub write_service :
      Dir → Service → List ℕ → Option Fault → Option (List ℕ) → Dir × Option Error
  write_service dir s digits none left =
      let made = file_set dir (temp_name s.name digits) (encode s) in
      (file_set (file_delete made (temp_name s.name digits)) (path s.name) (encode s), none)
  write_service dir s digits (some encoding) left = (dir, some (failed encoding))
  write_service dir s digits (some creating) left = (dir, some (failed creating))
  write_service dir s digits (some fault) left =
      (clean_up dir (temp_name s.name digits) (encode s) left, some (failed fault))

  unfoldable pub put_service :
      Dir → Service → ℕ → List ℕ → Option Fault → Option (List ℕ) → Dir × Option Error
  put_service dir s now digits fault left = elim (validate s) [
    | some err ↦ (dir, some err)
    | none ↦ write_service dir (stamped s now) digits fault left
  ]

  -- `stat_fails`: `Stat` fails for another reason than that there is no file.
  unfoldable pub add_service :
      Dir → Service → ℕ → List ℕ → Bool → Option Fault → Option (List ℕ) → Dir × Option Error
  add_service dir s now digits stat_fails fault left = elim (validate s) [
    | some err ↦ (dir, some err)
    | none ↦
        if stat_fails then (dir, some (unchecked s.name)) else elim (file_get dir (path s.name)) [
          | some there ↦ (dir, some (service_exists s.name))
          | none ↦ write_service dir (stamped s now) digits fault left
        ]
  ]

  -- `read_fails`: the same of `ReadFile`.
  unfoldable pub get_service : Dir → List ℕ → Bool → Service ⊎ Error
  get_service dir name read_fails = elim (valid_service_name name) [
    | some err ↦ inr err
    | none ↦ if read_fails then inr (unreadable name) else elim (file_get dir (path name)) [
      | none ↦ inr (no_such_service name)
      | some bytes ↦ elim (decode bytes) [ none ↦ inr (invalid_file (path name)) | some s ↦ inl s ]
    ]
  ]

-- `remove_fails`: the same of `os.Remove`.
unfoldable pub remove_service : Dir → List ℕ → Bool → Dir × Option Error
remove_service dir name remove_fails = elim (valid_service_name name) [
  | some err ↦ (dir, some err)
  | none ↦
      if remove_fails then (dir, some (not_removed name)) else elim (file_get dir (path name)) [
        | none ↦ (dir, some (no_such_service name))
        | some bytes ↦ (file_delete dir (path name), none)
      ]
]
