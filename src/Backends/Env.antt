-- ===== src/Backends/Env.antt =====
-- pkg/backends/env/client.go. The environment is the list of entries that `os.Environ` gives.
pub mod Names
pub mod Found
pub mod Store
use confd.Prelude.{
  ℕ, suc, ◌≡◌, refl, Bool, true, false, Option, none, some, List, [], ◌∷◌, ◌++◌, map, take, drop,
  if◌then◌else◌,
}
use confd.Std.Text.{Text, codes, index, has_prefix, trim_prefix, replace_byte, to_upper, to_lower}
use confd.Std.Path.{slash}
use confd.Std.Dict.{Dict, insert}
use confd.Std.Result.{Error}

abbrev pub underscore : ℕ
underscore = b'_'

-- `transform`
unfoldable pub transform : Text → Text
transform key = to_upper (map (replace_byte slash underscore) (trim_prefix key (slash ∷ [])))

-- `clean`
unfoldable pub clean : Text → Text
clean key = map (replace_byte underscore slash) (to_lower (slash ∷ key))

-- The name and the value of an entry.
abbrev pub split_entry : Text → ℕ → Text × Text
split_entry e i = (take i e, drop (suc i) e)

-- The map of the environment. `none` is the panic at an entry with no `=` in it.
unfoldable pub env_map : List Text → Dict Text → Option (Dict Text)
env_map [] found = some found
env_map (e ∷ entries) found = elim (index e (codes "=")) [
  | none ↦ none
  | some i ↦ let (name, value) = split_entry e i in env_map entries (insert name value found)
]

-- The inner loop: the variables whose names begin with the transformed key.
unfoldable pub collect : Text → Dict Text → Dict Text → Dict Text
collect prefix [] vars = vars
collect prefix ((name, value) ∷ found) vars =
    collect prefix found (if has_prefix name prefix then insert (clean name) value vars else vars)

-- The loop over the keys.
unfoldable pub collect_all : List Text → Dict Text → Dict Text → Dict Text
collect_all [] found vars = vars
collect_all (key ∷ keys) found vars = collect_all keys found (collect (transform key) found vars)

-- `GetValues`, given the environment.
unfoldable pub get_values : List Text → List Text → Option (Dict Text)
get_values environ keys = elim (env_map environ []) [
  | none ↦ none
  | some found ↦ some (collect_all keys found [])
]

-- `WatchPrefix` only waits, and returns no index and no error once stopChan gives a value; `none`
-- where it never does.
unfoldable pub watch_prefix : Bool → Option (ℕ × Option Error)
watch_prefix stops = if stops then some (0, none) else none
