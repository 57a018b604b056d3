-- ===== src/Backends/Zookeeper.antt =====
-- pkg/backends/zookeeper/client.go: `NewZookeeperClient`, and `GetValues` with `nodeWalk`. Watch is
-- `watch` and `WatchPrefix`.
pub mod Walk
pub mod Watch
use confd.Prelude.{
  ℕ, zero, suc, Bool, true, false, Option, none, some, List, [], ◌∷◌, ◌++◌, ◌==◌, if◌then◌else◌,
}
use confd.Std.Text.{Text, codes, same, replace_all}
use confd.Std.Result.{Result, ok, err}
use confd.Std.Dict.{Dict, insert}
use confd.Std.Exec
use confd.Std.Exec.{Exec, ◌>>◌}
use confd.Std.Path.{slash}

-- The client: the names and the number of the children of a node, the number of children that
-- `Exists` reports, and the data of a node.
pub record Zk : Type 0 where
  pub children : Text → Result (List Text × ℕ)
  pub exists : Text → Result ℕ
  pub get : Text → Result Text

-- `NewZookeeperClient`, given what `zk.Connect` returns: `none` is a panic.
unfoldable pub new_zookeeper_client : {C : Type 0} → Result C → Option (Result C)
new_zookeeper_client (ok c) = some (ok c)
new_zookeeper_client (err e) = none

-- A walk fills the map, and keeps what it filled in before an error.
abbrev pub Filling : Type 0
Filling = Exec (Dict Text) (Unit {0})

abbrev pub child : Text → Text → Text
child prefix key = if same prefix (slash ∷ []) then slash ∷ key else prefix ++ (slash ∷ key)

pub set_value : Text → Result Text → Filling
set_value key (err e) vars = (err e, vars)
set_value key (ok data') vars = (ok tt, insert key data' vars)

-- A child that is a leaf is read; into any other the walk goes, and drops the error that it
-- returns.
pub visit_child : Zk → (Text → Filling) → Text → Result ℕ → Filling
visit_child zk walk s (err e) vars = (err e, vars)
visit_child zk walk s (ok zero) vars = set_value s (zk.get s) vars
visit_child zk walk s (ok (suc n)) vars = (ok tt, (walk s vars).1)

pub visit_children : Zk → (Text → Filling) → Text → List Text → Filling
visit_children zk walk prefix [] = Exec.pure tt
visit_children zk walk prefix (key ∷ keys) = do
  visit_child zk walk (child prefix key) (zk.exists (child prefix key))
  visit_children zk walk prefix keys

pub walk_from : Zk → (Text → Filling) → Text → Result (List Text × ℕ) → Filling
walk_from zk walk prefix (err e) = Exec.raise e
walk_from zk walk prefix (ok (l, zero)) = set_value prefix (zk.get prefix)
walk_from zk walk prefix (ok (l, suc n)) = visit_children zk walk prefix l

-- `nodeWalk`, to a depth.
unfoldable pub node_walk : Zk → ℕ → Text → Filling
node_walk zk zero prefix = Exec.raise (codes "too deep")
node_walk zk (suc depth) prefix = walk_from zk (node_walk zk depth) prefix (zk.children prefix)

unfoldable pub read_keys : Zk → ℕ → List Text → Filling
read_keys zk depth [] = Exec.pure tt
read_keys zk depth (key ∷ keys) =
    let v = replace_all key (codes "/*") [] in
    elim (zk.exists v) [
      | err e ↦ Exec.raise e
      | ok n ↦ (do node_walk zk depth v; read_keys zk depth keys)
    ]

-- `GetValues`: the error, if any, and the values found.
unfoldable pub get_values : Zk → ℕ → List Text → Result (Unit {0}) × Dict Text
get_values zk depth keys = read_keys zk depth keys []
