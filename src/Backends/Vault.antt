-- ===== src/Backends/Vault.antt =====
-- pkg/backends/vault/client.go: `GetValues` with `isKV`, `flatten` and `walkTree`.
pub mod Leaves
pub mod Walk
pub mod Login
pub mod Connect
use confd.Prelude.{
  ℕ, zero, suc, ◌-◌, Bool, true, false, ◌||◌, Option, none, some, List, [], ◌∷◌, ltb, length,
  get_elem?, take, exists, ◌==◌, if◌then◌else◌,
}
use confd.Std.Text.{Text, codes, same}
use confd.Std.Result.{Error, Result, ok, err, ◌>>=◌}
use confd.Std.Dict.{Dict, insert}
use confd.Std.Path.{slash, path_join}

-- A decoded JSON value.
mutual
  pub data Value : Type 0 where
    text : Text → Value
    number : Text → Value
    object : Fields → Value
    sequence : Values → Value
    other : Value

  pub data Values : Type 0 where
    end : Values
    item : Value → Values → Values

  pub data Fields : Type 0 where
    stop : Fields
    field : Text → Value → Fields → Fields

-- `data[k]`
unfoldable pub find : Text → Fields → Option Value
find k stop = none
find k (field j value fields) = if same j k then some value else find k fields

abbrev as_object : Option Value → Option Fields
as_object (some (object fields)) = some fields
as_object _ = none

abbrev is_number : Option Value → Bool
is_number (some (number n)) = true
is_number _ = false

abbrev as_text : Option Value → Option Text
as_text (some (text t)) = some t
as_text _ = none

-- `isKV`
unfoldable pub is_kv : Fields → Option Text
unfolding find
is_kv (field k value stop) = as_text (find (codes "value") (field k value stop))
is_kv _ = none

abbrev pub member : Text → Text → Text
member key k = path_join (key ∷ (slash ∷ []) ∷ k ∷ [])

-- `flatten`
unfoldable mutual
  pub flatten : Text → Value → Dict Text → Dict Text
  flatten key (text t) vars = insert key t vars
  flatten key (object fields) vars = flatten_fields key fields vars
  flatten key (number n) vars = vars
  flatten key (sequence values) vars = vars
  flatten key other vars = vars

  pub flatten_fields : Text → Fields → Dict Text → Dict Text
  flatten_fields key stop vars = vars
  flatten_fields key (field k value fields) vars =
      flatten_fields key fields (flatten (member key k) value vars)

-- The client of Vault, where no answer stands for a response that is nil or has no data, and
-- `json.Marshal`.
pub record Logical : Type 0 where
  pub read : Text → Result (Option Fields)
  pub list : Text → Result (Option Fields)
  pub marshal : Fields → Text

-- A trailing slash is dropped, unless it is the whole key.
unfoldable pub strip_slash : Text → Text
strip_slash key =
    let last = length key - 1 in
    elim (get_elem? key last) [
      | none ↦ key
      | some c ↦ (if ltb 0 last then (if c == slash then take last key else key) else key)
    ]

abbrev pub seen : Text → List Text → Bool
seen key branches = exists (λ branch. same branch key) branches

abbrev text_items : Values → List Text
text_items end = []
text_items (item (text t) values) = t ∷ text_items values
text_items (item _ values) = text_items values

-- The names under `keys` in the answer to a listing: those that are strings.
abbrev listed : Option Value → List Text
listed (some (sequence values)) = text_items values
listed _ = []

-- The names listed below a key: none where the listing fails, as the error goes nowhere.
unfoldable pub names_below : Logical → Text → List Text
names_below logical key = elim (logical.list key) [
  | err e ↦ []
  | ok none ↦ []
  | ok (some data') ↦ listed (find (codes "keys") data')
]

pub walk_names : (Text → List Text → List Text) → Text → List Text → List Text → List Text
walk_names walk key [] branches = branches
walk_names walk key (name ∷ names) branches =
    walk_names walk key names (walk (member key name) branches)

-- `walkTree`, to a depth. Its error is dropped by both callers.
pub walk_tree : Logical → ℕ → Text → List Text → List Text
walk_tree logical zero key branches = branches
walk_tree logical (suc depth) key branches =
    let k = strip_slash key in
    if seen k branches
    then branches
    else walk_names (walk_tree logical depth) k (names_below logical k) (k ∷ branches)

pub walk_keys : Logical → ℕ → List Text → List Text → List Text
walk_keys logical depth [] branches = branches
walk_keys logical depth (key ∷ keys) branches =
    walk_keys logical depth keys (walk_tree logical depth key branches)

-- The JSON text of the data under the key itself, and then its strings.
unfoldable pub save : Logical → Text → Fields → Dict Text → Dict Text
save logical key data' vars = flatten_fields key data' (insert key (logical.marshal data') vars)

-- A secret of the second version of the KV engine: its data, if its metadata has a version.
unfoldable pub read_versioned : Logical → Text → Fields → Fields → Dict Text → Dict Text
read_versioned logical key metadata data' vars = elim (as_object (find (codes "data") data')) [
  | none ↦ vars
  | some kv_data ↦
      (if is_number (find (codes "version") metadata) then save logical key kv_data vars else vars)
]

unfoldable pub read_secret : Logical → Text → Fields → Dict Text → Dict Text
read_secret logical key data' vars = elim (as_object (find (codes "metadata") data')) [
  | some metadata ↦ read_versioned logical key metadata data' vars
  | none ↦ elim (is_kv data') [ some v ↦ insert key v vars | none ↦ save logical key data' vars ]
]

unfoldable pub read_branches : Logical → List Text → Dict Text → Result (Dict Text)
read_branches logical [] vars = ok vars
read_branches logical (key ∷ branches) vars = do
  answer ← logical.read key
  read_branches logical branches
      (elim answer [ none ↦ vars | some data' ↦ read_secret logical key data' vars ])

-- `GetValues`, with the depth to which the walk goes.
unfoldable pub get_values : Logical → ℕ → List Text → Result (Dict Text)
get_values logical depth keys = read_branches logical (walk_keys logical depth keys []) []

-- `WatchPrefix` only waits, and returns no index and no error once stopChan gives a value; `none`
-- where it never does.
unfoldable pub watch_prefix : Bool → Option (ℕ × Option Error)
watch_prefix stops = if stops then some (0, none) else none
