-- ===== src/Backends/Dynamodb.antt =====
-- pkg/backends/dynamodb/client.go: `GetValues` over the answers of one table.
pub mod Connect
use confd.Prelude.{ℕ, Bool, Option, none, some, List, [], ◌∷◌, if◌then◌else◌}
use confd.Std.Text.{Text}
use confd.Std.Result.{Error, Result, ok, ◌>>=◌}
use confd.Std.Dict.{Dict, insert}

-- The attribute `value` of an item: missing, no string, or a string.
pub data Attribute : Type 0 where
  missing : Attribute
  no_string : Attribute
  string : Text → Attribute

-- `GetItem` at a key, with no item or its value, and `Scan` for the keys that begin with a key.
pub record Table : Type 0 where
  pub get_item : Text → Result (Option Attribute)
  pub scan : Text → Result (List (Text × Attribute))

-- A value that is no string is passed over with a warning.
unfoldable pub add_value : Text → Attribute → Dict Text → Dict Text
add_value key missing vars = vars
add_value key no_string vars = vars
add_value key (string v) vars = insert key v vars

unfoldable pub add_items : List (Text × Attribute) → Dict Text → Dict Text
add_items [] vars = vars
add_items ((key, value) ∷ items) vars = add_items items (add_value key value vars)

-- The scan for nested keys.
unfoldable pub read_nested : Table → Text → Dict Text → Result (Dict Text)
read_nested table key vars = do items ← table.scan key; ok (add_items items vars)

-- An item of that key with a value, even one that is no string, ends the search at this key.
unfoldable pub read_item : Table → Text → Option Attribute → Dict Text → Result (Dict Text)
read_item table key none vars = read_nested table key vars
read_item table key (some missing) vars = read_nested table key vars
read_item table key (some no_string) vars = ok (add_value key no_string vars)
read_item table key (some (string v)) vars = ok (add_value key (string v) vars)

unfoldable pub get_values_from : Table → List Text → Dict Text → Result (Dict Text)
get_values_from table [] vars = ok vars
get_values_from table (key ∷ keys) vars = do
  item ← table.get_item key
  vars' ← read_item table key item vars
  get_values_from table keys vars'

-- `GetValues`
unfoldable pub get_values : Table → List Text → Result (Dict Text)
get_values table keys = get_values_from table keys []

-- `WatchPrefix` only waits, and returns no index and no error once stopChan gives a value; `none`
-- where it never does.
unfoldable pub watch_prefix : Bool → Option (ℕ × Option Error)
watch_prefix stops = if stops then some (0, none) else none
