-- ===== src/Backends/Zookeeper/Watch/Above.antt =====
-- Which directories are watched.
use confd.Prelude.{
  ℕ, zero, suc, ◌≤◌, ◌<◌, ◌≡◌, refl, ap, ◌∙◌, Bool, true, false, ◌&&◌, ◌||◌, Option, some, List, [],
  ◌∷◌, ◌++◌, map, exists, length, drop, length-append, All, All-append, arith, Bool-cases, inl, inr,
}
use confd.Std.Text.{Text, same, same_iff, same_ne, text_dec}
use confd.Std.Path.{path_dir}
use confd.Std.Path.Canonical.{IsName, Names, root_path, root_path_inj}
use confd.Std.Path.Parent.{path_dir-root_path}
use confd.Backends.Zookeeper.Watch.{root, is_asked, seen, add_dir, add_dirs, watch_dirs}

-- Names, the nearest first, from the root on.
abbrev pub from_root : List Text → List Text
from_root [] = []
from_root (name ∷ above) = from_root above ++ (name ∷ [])

-- The path of a node, by its name and the names above it, the nearest first.
abbrev pub path_of : List Text → Text
path_of names = root_path (from_root names)

-- The node itself and what stands above it, without the root.
abbrev pub upwards : List Text → List Text
upwards [] = []
upwards (name ∷ above) = path_of (name ∷ above) ∷ upwards above

-- Each directory once.
abbrev pub Distinct : List Text → Type 0
Distinct [] = Unit
Distinct (dir ∷ dirs) = (seen dir dirs ≡ false) × Distinct dirs

from_root-Names : (names : List Text) → Names names → Names (from_root names)
from_root-Names [] h = tt
from_root-Names (name ∷ names) (h, hs) =
    All-append IsName (from_root names) (name ∷ []) (from_root-Names names hs) (h, tt)

path_dir-path_of :
    (name : Text) (above : List Text)
    → Names (name ∷ above)
    → path_dir (path_of (name ∷ above)) ≡ path_of above
path_dir-path_of name above (h, hs) =
    path_dir-root_path (from_root above) name (from_root-Names above hs) h.no_slash

path_of_below :
    (name : Text) (above : List Text)
    → Names (name ∷ above)
    → same (path_of (name ∷ above)) root ≡ false
path_of_below name above h = same_ne _ root (λ e.
    let n = ap length (root_path_inj _ [] (from_root-Names (name ∷ above) h) tt e) in
    omega (arith, n, length-append (from_root above) (name ∷ [])))

seen-add_dir :
    (dir d : Text) (watched : List Text)
    → seen d (add_dir dir watched) ≡ (same dir d || seen d watched)
unfolding add_dir
seen-add_dir dir d watched =
    let there : same dir d ≡ true → seen dir watched ≡ seen d watched =
      λ e. ap (λ x. seen x watched) ((same_iff dir d).0 e) in
    ground (arith, there)

add_dir-Distinct :
    (dir : Text) (watched : List Text) → Distinct watched → Distinct (add_dir dir watched)
unfolding add_dir
add_dir-Distinct dir watched h = elim (Bool-cases (seen dir watched)) [
  | inl e ↦ rw e h
  | inr e ↦ rw e (e, h)
]

-- The watches that a loop adds: each directory once, and those named.
Adds : Option (List Text) → (Text → Bool) → List Text → Type 0
Adds out named watched =
    (dirs : List Text) × (out ≡ some dirs)
    × Distinct dirs
    × ((d : Text) → seen d dirs ≡ (named d || seen d watched))

add_dirs-upwards :
    (rounds : ℕ) (names watched : List Text)
    → Names names
    → length names < rounds
    → Distinct watched
    → Adds (add_dirs rounds (path_of names) watched) (λ d. seen d (upwards names)) watched
unfolding add_dirs Adds text_dec
add_dirs-upwards zero names watched h l c = absurd (omega (arith, l))
add_dirs-upwards (suc rounds) [] watched h l c = (watched, refl, c, λ d. refl)
add_dirs-upwards (suc rounds) (name ∷ above) watched h l c =
    let dir = path_of (name ∷ above) in
    let (dirs, e, q, named) =
      add_dirs-upwards rounds above (add_dir dir watched) h.1 (omega (arith, l))
        (add_dir-Distinct dir watched c) in
    (
      dirs,
      rw (add_dirs, path_of_below name above h) (rw (path_dir-path_of name above h) e),
      q,
      λ d. named d ∙ rw (seen-add_dir dir d watched) (ground arith),
    )

-- The nodes found: each by its names, from its own up.
abbrev pub Nodes : ℕ → List (List Text) → Type 0
Nodes rounds = All (λ names. Names names × (length names < rounds))

-- Whether a directory stands above one of the nodes that are asked for, below the root.
abbrev pub is_above : List Text → List (List Text) → Text → Bool
is_above keys nodes d =
    exists (λ names. is_asked keys (path_of names) && seen d (upwards (drop 1 names))) nodes

path_dir-drop :
    (names : List Text) → Names names → path_dir (path_of names) ≡ path_of (drop 1 names)
unfolding path_dir
path_dir-drop [] h = refl
path_dir-drop (name ∷ above) h = path_dir-path_of name above h

Names-drop : (names : List Text) → Names names → Names (drop 1 names)
Names-drop [] h = tt
Names-drop (name ∷ above) (h, hs) = hs

length-drop : (names : List Text) → length (drop 1 names) ≤ length names
length-drop [] = omega arith
length-drop (name ∷ above) = omega arith

node_dirs :
    (rounds : ℕ) (names watched : List Text)
    → Names names
    → length names < rounds
    → Distinct watched
    → Adds
        (add_dirs rounds (path_dir (path_of names)) watched)
        (λ d. seen d (upwards (drop 1 names)))
        watched
node_dirs rounds names watched h l c = rw (path_dir-drop names h) (
    add_dirs-upwards rounds (drop 1 names) watched (Names-drop names h)
      (omega (arith, l, length-drop names)) c)

watch_dirs-Adds :
    (rounds : ℕ) (keys : List Text) (nodes : List (List Text)) (watched : List Text)
    → Nodes rounds nodes
    → Distinct watched
    → Adds (watch_dirs rounds keys (map path_of nodes) watched) (is_above keys nodes) watched
unfolding watch_dirs Adds
watch_dirs-Adds rounds keys [] watched h c = (watched, refl, c, λ d. refl)
watch_dirs-Adds rounds keys (names ∷ nodes) watched ((n, l), hs) c =
    elim (Bool-cases (is_asked keys (path_of names))) [
      | inl e ↦
          let (w, f, q, named) = node_dirs rounds names watched n l c in
          let (dirs, g, p, rest) = watch_dirs-Adds rounds keys nodes w hs q in
          (dirs, rw (watch_dirs, e, f) g, p, λ d. rest d ∙ rw (e, named d) (ground arith))
      | inr e ↦
          let (dirs, g, p, rest) = watch_dirs-Adds rounds keys nodes watched hs c in
          (dirs, rw (watch_dirs, e) g, p, λ d. rest d ∙ rw e (ground arith))
    ]

-- The loops that start the watches end, within one round more than the names of the deepest node
-- found, where the nodes have clean paths from the root. Then the directories that are watched are
-- those above a node that has one of the keys as a prefix, the root left out, each once.
pub watch_dirs-is_above :
    (rounds : ℕ) (keys : List Text) (nodes : List (List Text))
    → Nodes rounds nodes
    → (dirs : List Text) × (watch_dirs rounds keys (map path_of nodes) [] ≡ some dirs)
      × Distinct dirs
      × ((d : Text) → seen d dirs ≡ is_above keys nodes d)
unfolding Adds
watch_dirs-is_above rounds keys nodes h =
    let (dirs, e, c, named) = watch_dirs-Adds rounds keys nodes [] h tt in
    (dirs, e, c, λ d. named d ∙ ground arith)
