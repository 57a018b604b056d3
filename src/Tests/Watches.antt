-- ===== src/Tests/Watches.antt =====
-- The directories that the watch of zookeeper takes in.
use confd.Prelude.{◌≡◌, refl, some, List, [], ◌∷◌, map, arith}
use confd.Std.Text.{Text, codes, text_dec, has_prefix}
use confd.Std.Path.{is_dot, is_dot_dot, path_dir}
use confd.Std.Path.Canonical.{IsName}
use confd.Backends.Zookeeper.Watch.{seen, is_asked, add_dir, add_dirs, watch_dirs}
use confd.Backends.Zookeeper.Watch.Above.{path_of, Distinct, Nodes, is_above, watch_dirs-is_above}

-- `/a/b` and `/a/c`.
abbrev nodes : List (List Text)
nodes = (codes "b" ∷ codes "a" ∷ []) ∷ (codes "c" ∷ codes "a" ∷ []) ∷ []

abbrev keys : List Text
keys = codes "/a" ∷ []

a_IsName : IsName (codes "a")
unfolding is_dot is_dot_dot
a_IsName = record { no_slash = (refl, tt); not_dot = refl; not_dot_dot = refl }

b_IsName : IsName (codes "b")
unfolding is_dot is_dot_dot
b_IsName = record { no_slash = (refl, tt); not_dot = refl; not_dot_dot = refl }

c_IsName : IsName (codes "c")
unfolding is_dot is_dot_dot
c_IsName = record { no_slash = (refl, tt); not_dot = refl; not_dot_dot = refl }

nodes_named : Nodes 3 nodes
nodes_named =
    (((b_IsName, (a_IsName, tt)), omega arith), (((c_IsName, (a_IsName, tt)), omega arith), tt))

watch_dirs-is_above_example :
    (dirs : List Text) × (watch_dirs 3 keys (map path_of nodes) [] ≡ some dirs)
    × Distinct dirs
    × ((d : Text) → seen d dirs ≡ is_above keys nodes d)
watch_dirs-is_above_example = watch_dirs-is_above 3 keys nodes nodes_named

directories_found : watch_dirs 3 keys (map path_of nodes) [] ≡ some (codes "/a" ∷ [])
unfolding watch_dirs add_dirs add_dir is_asked text_dec has_prefix path_dir
directories_found = refl
