-- ===== src/Backends/File/Leaves.antt =====
-- What `nodeWalk` sets, without the map that it sets it in.
use confd.Prelude.{
  ℕ, suc, ◌≡◌, refl, Bool, true, false, ◌&&◌, Option, none, some, [], ◌∷◌, ◌++◌, if◌then◌else◌,
}
use confd.Std.Text.{Text}
use confd.Std.Dict.{Dict, insert}
use confd.Std.Strconv.{itoa_ℤ, format_bool}
use confd.Backends.File.{
  Node, Nodes, Entries, text, int, boolean, float, seq, mapping, other, end, item, stop, entry,
  element, member, node_walk,
}

-- Whether every key of every mapping is a string.
mutual
  pub all_named : Node → Bool
  all_named (text t) = true
  all_named (int n) = true
  all_named (boolean b) = true
  all_named (float t) = true
  all_named (seq nodes) = items_named nodes
  all_named (mapping entries) = entries_named entries
  all_named other = true

  pub items_named : Nodes → Bool
  items_named end = true
  items_named (item node nodes) = all_named node && items_named nodes

  pub entries_named : Entries → Bool
  entries_named stop = true
  entries_named (entry none node entries) = false
  entries_named (entry (some k) node entries) = all_named node && entries_named entries

-- The scalars of a document, each with the path that leads to it.
mutual
  pub leaves : Node → Text → Dict Text
  leaves (text t) key = (key, t) ∷ []
  leaves (int n) key = (key, itoa_ℤ n) ∷ []
  leaves (boolean b) key = (key, format_bool b) ∷ []
  leaves (float t) key = (key, t) ∷ []
  leaves (seq nodes) key = item_leaves nodes 0 key
  leaves (mapping entries) key = entry_leaves entries key
  leaves other key = []

  pub item_leaves : Nodes → ℕ → Text → Dict Text
  item_leaves end i key = []
  item_leaves (item node nodes) i key = leaves node (element key i) ++ item_leaves nodes (suc i) key

  pub entry_leaves : Entries → Text → Dict Text
  entry_leaves stop key = []
  entry_leaves (entry none node entries) key = []
  entry_leaves (entry (some k) node entries) key =
      leaves node (member key k) ++ entry_leaves entries key

abbrev pub insert_all : Dict Text → Dict Text → Dict Text
insert_all [] vars = vars
insert_all ((k, v) ∷ entries) vars = insert_all entries (insert k v vars)

insert_all-append :
    (xs ys vars : Dict Text) → insert_all (xs ++ ys) vars ≡ insert_all ys (insert_all xs vars)
insert_all-append [] ys vars = refl
insert_all-append ((k, v) ∷ xs) ys vars = insert_all-append xs ys (insert k v vars)

-- A walk that goes on with a second one, from what is known of both.
abbrev set_or_panic : Bool → Dict Text → Dict Text → Option (Dict Text)
set_or_panic named found vars = if named then some (insert_all found vars) else none

two_walks :
    (b c : Bool) (xs ys vars : Dict Text) (first : Option (Dict Text))
    (second : Dict Text → Option (Dict Text))
    → first ≡ set_or_panic b xs vars
    → second (insert_all xs vars) ≡ set_or_panic c ys (insert_all xs vars)
    → (elim first [ none ↦ none | some vars' ↦ second vars' ])
      ≡ set_or_panic (b && c) (xs ++ ys) vars
two_walks false c xs ys vars first second h k = rw h refl
two_walks true false xs ys vars first second h k = rw h k
two_walks true true xs ys vars first second h k = rw (h, insert_all-append xs ys vars) k

mutual
  unfolding node_walk all_named leaves

  node_walk_onto :
      (node : Node) (key : Text) (vars : Dict Text)
      → node_walk node key vars
        ≡ (if all_named node then some (insert_all (leaves node key) vars) else none)
  node_walk_onto (text t) key vars = refl
  node_walk_onto (int n) key vars = refl
  node_walk_onto (boolean b) key vars = refl
  node_walk_onto (float t) key vars = refl
  node_walk_onto (seq nodes) key vars = walk_items_lem nodes 0 key vars
  node_walk_onto (mapping entries) key vars = walk_entries_lem entries key vars
  node_walk_onto other key vars = refl

  walk_items_lem :
      (nodes : Nodes) (i : ℕ) (key : Text) (vars : Dict Text)
      → confd.Backends.File.walk_items nodes i key vars
        ≡ set_or_panic (items_named nodes) (item_leaves nodes i key) vars
  walk_items_lem end i key vars = refl
  walk_items_lem (item node nodes) i key vars =
      two_walks _ _ (leaves node (element key i)) _ vars _ _
        (node_walk_onto node (element key i) vars) (walk_items_lem nodes (suc i) key _)

  walk_entries_lem :
      (entries : Entries) (key : Text) (vars : Dict Text)
      → confd.Backends.File.walk_entries entries key vars
        ≡ set_or_panic (entries_named entries) (entry_leaves entries key) vars
  walk_entries_lem stop key vars = refl
  walk_entries_lem (entry none node entries) key vars = refl
  walk_entries_lem (entry (some k) node entries) key vars =
      two_walks _ _ (leaves node (member key k)) _ vars _ _
        (node_walk_onto node (member key k) vars) (walk_entries_lem entries key _)
