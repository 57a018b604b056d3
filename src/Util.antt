-- ===== src/Util.antt =====
-- pkg/util: the list helpers of util.go. Its file helpers are in the modules below.
pub mod Files
pub mod Lookup
pub mod Shift
pub mod Prefix
use confd.Prelude.{
  ℕ, suc, ◌+◌, ◌-◌, Option, none, some, List, [], ◌∷◌, ◌++◌, map, leb, if◌then◌else◌, length, take,
  drop,
}
use confd.Std.Text.{Text}
use confd.Std.Path.{path_join}

-- `AppendPrefix`
unfoldable pub append_prefix : Text → List Text → List Text
append_prefix prefix [] = []
append_prefix prefix (k ∷ keys) = path_join (prefix ∷ k ∷ []) ∷ append_prefix prefix keys

-- `Nodes.Set`, the flag that may be given several times.
unfoldable pub nodes_set : List Text → Text → List Text
nodes_set nodes node = nodes ++ node ∷ []

-- `copy(dst, src)`: as many items as both have.
pub copy : List Text → List Text → List Text
copy [] src = []
copy (d ∷ dst) [] = d ∷ dst
copy (d ∷ dst) (x ∷ src) = x ∷ copy dst src

-- `array[position] = value`
pub put_at : List Text → ℕ → Text → List Text
put_at array position value = take position array ++ (value ∷ drop (suc position) array)

-- `ArrayShift`; `none` is the panic of a slice whose bounds are out of range.
pub array_shift : List Text → ℕ → Text → Option (List Text)
unfolding copy put_at
array_shift array position value =
    let grown = array ++ [] ∷ [] in
    let shifted =
      take (suc position) grown ++ copy (drop (suc position) grown) (drop position grown) in
    if leb (suc position) (length grown) then some (put_at shifted position value) else none
