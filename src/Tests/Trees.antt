-- ===== src/Tests/Trees.antt =====
-- The backends that walk trees, at small ones.
use confd.Prelude.{
  ℕ, ◌≡◌, refl, ◌<◌, inl, inr, false, none, some, List, [], ◌∷◌, All, arith, Bool-cases, sym, ap,
  ◌∙◌, if◌then◌else◌,
}
use mathlib.Core.Path.{subst}
use confd.Std.Text.{Text, codes, text_dec, same, has_prefix, has_suffix, same_iff}
use confd.Std.Result.{ok, err}
use confd.Std.Dict.{Dict, lookup, insert}
use confd.Std.Path.{path_ext, path_join, path_base}
use confd.Platform.Memory.{Disk, memory}
use confd.Util.Lookup.{is_directory, visit, visit_all, recursive_lookup, recursive_files_lookup}
use confd.Backends.File
use confd.Backends.File.{
  Node, Entries, mapping, entry, stop, seq, end, item, Decoders, asked, find_files, read_all,
}
use confd.Backends.File.Asked.{get_values-asked}
use confd.Backends.Vault
use confd.Backends.Vault.{Logical, Value, field, walk_tree, walk_keys, strip_slash, names_below}
use confd.Backends.Vault.Leaves.{strings, set_each, flatten_lem}
use confd.Backends.Vault.Walk.{Descends, walk_tree-enough}
use confd.Backends.Zookeeper
use confd.Backends.Zookeeper.{Zk, child}
use confd.Backends.Zookeeper.Walk.{
  below, Descends as ZkDescends, node_walk-deep_errors, node_walk-enough,
}
use confd.Tests.Samples.{text_file}

decoders : Decoders
decoders = record {
  json = λ t. err (codes "unexpected end of JSON input");
  yaml = λ t.
      ok (entry (some (codes "a")) (File.text t) (entry (some (codes "b")) (File.text t) stop));
}

abbrev files_disk : Disk
files_disk = record {
  files = (codes "/d/f.yml", text_file (codes "v")) ∷ [];
  mounts = [];
  ran = [];
}

abbrev paths : List Text
paths = codes "/d" ∷ []

abbrev keys : List Text
keys = codes "/a" ∷ []

abbrev files : List Text
files = codes "/d/f.yml" ∷ []

files_found : find_files memory decoders paths (codes "*yml") files_disk ≡ ok files
unfolding find_files recursive_files_lookup recursive_lookup is_directory lookup text_dec visit_all
    has_prefix visit has_suffix path_base
files_found = refl

abbrev all_values : Dict Text
all_values = (codes "/a", codes "v") ∷ (codes "/b", codes "v") ∷ []

files_read : read_all memory decoders files [] files_disk ≡ some (ok all_values)
unfolding read_all decoders File.next File.read_file lookup text_dec File.decode_and_walk path_ext
    File.walk_decoded File.node_walk insert path_join
files_read = refl

get_values-asked_example :
    (result : Dict Text) × (File.get_values memory decoders paths (codes "*yml") keys files_disk
      ≡ some (ok result))
    × (lookup (codes "/b") result
        ≡ (if asked (codes "/b") keys then lookup (codes "/b") all_values else none))
get_values-asked_example =
    get_values-asked memory decoders paths (codes "*yml") keys files files_disk all_values
      (codes "/b") files_found files_read

abbrev secret : Value
secret = Vault.object (
    field (codes "u") (Vault.text (codes "root"))
      (field (codes "n") (Vault.number (codes "3")) Vault.stop))

flatten_lem_example :
    Vault.flatten (codes "/s") secret [] ≡ set_each (strings (codes "/s") secret) []
flatten_lem_example = flatten_lem (codes "/s") secret []

-- Under `/s` lies one key, under that none.
vault : Logical
vault = record {
  read = λ key. ok none;
  list = λ key. ok (
      if same key (codes "/s")
      then some (
          field (codes "keys") (Vault.sequence (Vault.item (Vault.text (codes "k/")) Vault.end))
            Vault.stop)
      else none);
  marshal = λ fields. [];
}

height : Text → ℕ
height key = if same key (codes "/s") then 1 else 0

vault_empty : (key : Text) → same key (codes "/s") ≡ false → names_below vault key ≡ []
unfolding vault names_below
vault_empty key e = ground (arith, e)

vault-Descends : Descends vault height
unfolding vault height names_below text_dec strip_slash path_join Vault.find
vault-Descends key = elim (Bool-cases (same key (codes "/s"))) [
  | inl e ↦
      subst
        (λ k.
          All (λ name. height (strip_slash (Vault.member k name)) < height k) (names_below vault k))
        (sym ((same_iff key (codes "/s")).0 e)) (omega arith, tt)
  | inr e ↦
      subst (All (λ name. height (strip_slash (Vault.member key name)) < height key))
        (sym (vault_empty key e)) tt
]

vault_low : height (strip_slash (codes "/s/")) < 2
unfolding height text_dec strip_slash
vault_low = omega arith

walk_tree-enough_example : walk_tree vault 2 (codes "/s/") [] ≡ walk_tree vault 9 (codes "/s/") []
walk_tree-enough_example =
    walk_tree-enough vault height 2 9 (codes "/s/") [] vault-Descends vault_low
      (omega (arith, vault_low))

-- Under `/s` lies one node with one child, which cannot be read.
zk : Zk
zk = record {
  children = λ key.
      if same key (codes "/s")
      then ok (codes "k" ∷ [], 1)
      else if same key (codes "/s/k")
      then ok (codes "x" ∷ [], 1)
      else err (codes "zk: no node");
  exists = λ key. if same key (codes "/s/k") then ok 1 else err (codes "zk: connection lost");
  get = λ key. err (codes "zk: connection lost");
}

inner_node : zk.exists (codes "/s/k") ≡ ok 1
unfolding zk text_dec
inner_node = refl

top_listed : zk.children (codes "/s") ≡ ok (codes "k" ∷ [], 1)
unfolding zk text_dec
top_listed = refl

child_path : child (codes "/s") (codes "k") ≡ codes "/s/k"
unfolding text_dec
child_path = refl

node_walk-deep_errors_example : (Zookeeper.node_walk zk 3 (codes "/s") []).0 ≡ ok tt
node_walk-deep_errors_example =
    node_walk-deep_errors zk 2 0 (codes "/s") (codes "k" ∷ []) [] top_listed
      (inl (0, ap zk.exists child_path ∙ inner_node), tt)

depth : Text → ℕ
depth key = if same key (codes "/s") then 2 else if same key (codes "/s/k") then 1 else 0

zk-Descends : ZkDescends zk depth
unfolding zk depth text_dec
zk-Descends key = elim (Bool-cases (same key (codes "/s"))) [
  | inl e ↦ subst DescendsAt (sym ((same_iff key (codes "/s")).0 e)) (omega arith, tt)
  | inr e ↦ elim (Bool-cases (same key (codes "/s/k"))) [
    | inl f ↦ subst DescendsAt (sym ((same_iff key (codes "/s/k")).0 f)) (omega arith, tt)
    | inr f ↦ simp (e, f) tt
  ]
]
  where
    DescendsAt : Text → Type 0
    DescendsAt k = All (λ name. depth (child k name) < depth k) (below (zk.children k))

zk_low : depth (codes "/s") < 3
unfolding depth text_dec
zk_low = omega arith

node_walk-enough_example :
    Zookeeper.node_walk zk 3 (codes "/s") [] ≡ Zookeeper.node_walk zk 8 (codes "/s") []
node_walk-enough_example =
    node_walk-enough zk depth 3 8 (codes "/s") [] zk-Descends zk_low (omega (arith, zk_low))
