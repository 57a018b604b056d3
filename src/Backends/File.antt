-- ===== src/Backends/File.antt =====
-- pkg/backends/file/client.go: `GetValues` over decoded files, and the outcome of `WatchPrefix`.
pub mod Leaves
pub mod Asked
use confd.Prelude.{
  ℕ, zero, suc, ◌+◌, Bool, true, false, not, ◌&&◌, ◌||◌, Option, none, some, List, [], ◌∷◌, ◌++◌,
  exists, ◌==◌, if◌then◌else◌,
}
use confd.Std.Text.{Text, codes, same, has_prefix}
use confd.Std.Result.{Error, Result, ok, err, ◌>>=◌, ◌>>◌}
use confd.Std.Dict.{Dict, insert, erase}
use confd.Std.Int.{ℤ}
use confd.Std.Path.{slash, path_join, path_ext}
use confd.Std.Strconv.{itoa, itoa_ℤ, format_bool}
use confd.Platform.{Platform}
use confd.Util.Lookup.{is_directory, recursive_files_lookup, recursive_dirs_lookup}

-- A decoded document. A float stands by its text under `FormatFloat(x, 'f', -1, 64)`; `other` is
-- a value of any other type. The key of an entry is `none` where it is not a string.
mutual
  pub data Node : Type 0 where
    text : Text → Node
    int : ℤ → Node
    boolean : Bool → Node
    float : Text → Node
    seq : Nodes → Node
    mapping : Entries → Node
    other : Node

  pub data Nodes : Type 0 where
    end : Nodes
    item : Node → Nodes → Nodes

  pub data Entries : Type 0 where
    stop : Entries
    entry : Option Text → Node → Entries → Entries

abbrev pub element : Text → ℕ → Text
element key i = path_join (key ∷ itoa i ∷ [])

abbrev pub member : Text → Text → Text
member key k = path_join (key ∷ k ∷ [])

-- `nodeWalk`; `none` is the panic at a key that is not a string.
unfoldable mutual
  pub node_walk : Node → Text → Dict Text → Option (Dict Text)
  node_walk (text t) key vars = some (insert key t vars)
  node_walk (int n) key vars = some (insert key (itoa_ℤ n) vars)
  node_walk (boolean b) key vars = some (insert key (format_bool b) vars)
  node_walk (float t) key vars = some (insert key t vars)
  node_walk (seq nodes) key vars = walk_items nodes 0 key vars
  node_walk (mapping entries) key vars = walk_entries entries key vars
  node_walk other key vars = some vars

  pub walk_items : Nodes → ℕ → Text → Dict Text → Option (Dict Text)
  walk_items end i key vars = some vars
  walk_items (item node nodes) i key vars =
      let walked = node_walk node (element key i) vars in
      elim walked [ none ↦ none | some vars' ↦ walk_items nodes (suc i) key vars' ]

  pub walk_entries : Entries → Text → Dict Text → Option (Dict Text)
  walk_entries stop key vars = some vars
  walk_entries (entry none node entries) key vars = none
  walk_entries (entry (some k) node entries) key vars =
      let walked = node_walk node (member key k) vars in
      elim walked [ none ↦ none | some vars' ↦ walk_entries entries key vars' ]

-- The packages encoding/json and yaml.
pub record Decoders : Type 0 where
  pub json : Text → Result Entries
  pub yaml : Text → Result Entries

-- A call that panics, or returns a result.
abbrev pub Call : Type 0 → Type 0
Call A = Option (Result A)

unfoldable pub next : {A B : Type 0} → Call A → (A → Call B) → Call B
next none f = none
next (some (err e)) f = some (err e)
next (some (ok a)) f = f a

abbrev pub returned : {A : Type 0} → Option A → Call A
returned none = none
returned (some a) = some (ok a)

-- `nodeWalk(fileMap, "/", vars)` at what a decoder returned.
unfoldable pub walk_decoded : Result Entries → Dict Text → Call (Dict Text)
walk_decoded (err e) vars = some (err e)
walk_decoded (ok entries) vars = returned (node_walk (mapping entries) (slash ∷ []) vars)

unfoldable pub decode_and_walk : Decoders → Text → Text → Dict Text → Call (Dict Text)
decode_and_walk decoders ext data' vars =
    if same ext (codes ".json")
    then walk_decoded (decoders.json data') vars
    else if same ext [] || same ext (codes ".yml") || same ext (codes ".yaml")
    then walk_decoded (decoders.yaml data') vars
    else some (err (codes "Invalid file extentsion. YAML or JSON only."))

-- Whether a key begins with one of those asked for.
abbrev pub asked : Text → List Text → Bool
asked k keys = exists (λ key. has_prefix k key) keys

-- The loop that deletes from the map what was not asked for; the first argument is what it still
-- has to visit.
pub delete_others : Dict Text → List Text → Dict Text → Dict Text
delete_others [] keys vars = vars
delete_others ((k, v) ∷ entries) keys vars =
    delete_others entries keys (if asked k keys then vars else erase k vars)

-- What the watcher of fsnotify sends, or the stop channel.
pub data Event : Type 0 where
  changed : Event
  ignored : Event
  failed : Error → Event
  stopped : Event

-- `watchChanges`: the answer to the first event that has one.
unfoldable pub watch_changes : List Event → Option (Result ℕ)
watch_changes [] = none
watch_changes (changed ∷ events) = some (ok 1)
watch_changes (ignored ∷ events) = watch_changes events
watch_changes (failed e ∷ events) = some (err e)
watch_changes (stopped ∷ events) = some (ok 1)

-- A watcher of fsnotify: whether it can be made, and what becomes of adding a path.
pub record Watcher : Type 0 where
  pub opened : Result (Unit {0})
  pub add : Text → Result (Unit {0})

unfoldable pub add_all : Watcher → List Text → Result (Unit {0})
add_all watcher [] = ok tt
add_all watcher (path ∷ paths) = do watcher.add path; add_all watcher paths

module _ (P : Platform) (decoders : Decoders) where
  -- `readFile`
  unfoldable pub read_file : Text → Dict Text → P.State → Call (Dict Text)
  read_file path vars s =
      next (some (P.read_file path s))
        (λ data'. decode_and_walk decoders (path_ext path) data' vars)

  unfoldable pub read_all : List Text → Dict Text → P.State → Call (Dict Text)
  read_all [] vars s = some (ok vars)
  read_all (path ∷ paths) vars s = next (read_file path vars s) (λ vars'. read_all paths vars' s)

  -- The files under the paths of the client that its filter lets pass.
  unfoldable pub find_files : List Text → Text → P.State → Result (List Text)
  find_files [] filter s = ok []
  find_files (path ∷ paths) filter s = do
    found ← recursive_files_lookup P path filter s
    more ← find_files paths filter s
    ok (found ++ more)

  -- `GetValues` of a client with those paths and that filter.
  unfoldable pub get_values : List Text → Text → List Text → P.State → Call (Dict Text)
  get_values paths filter keys s =
      next (some (find_files paths filter s))
        (λ files. next (read_all files [] s) (λ vars. some (ok (delete_others vars keys vars))))

  -- A path is watched: a file, or a directory with all below it.
  unfoldable pub watch_path : Watcher → Text → P.State → Result (Unit {0})
  watch_path watcher path s = do
    is_dir ← is_directory P path s
    here ← if is_dir then recursive_dirs_lookup P path (codes "*") s else ok (path ∷ [])
    add_all watcher here

  unfoldable pub watch_paths : Watcher → List Text → P.State → Result (Unit {0})
  watch_paths watcher [] s = ok tt
  watch_paths watcher (path ∷ paths) s = do watch_path watcher path s; watch_paths watcher paths s

  -- `WatchPrefix`: the first call answers at once.
  unfoldable pub watch_prefix : Watcher → List Text → ℕ → List Event → P.State → Option (Result ℕ)
  watch_prefix watcher paths wait_index events s =
      if wait_index == 0
      then some (ok 1)
      else elim (do watcher.opened; watch_paths watcher paths s) [
        | err e ↦ some (err e)
        | ok _ ↦ watch_changes events
      ]
