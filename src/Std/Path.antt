-- ===== src/Std/Path.antt =====
-- Packages `path` and, on Unix, `path/filepath`: `Clean`, `Join`, `Dir`, `Base` and `Ext`.
pub mod Canonical
pub mod Parent
use mathlib.Core.List.{reverse}
use confd.Prelude.{
  ℕ, Bool, true, false, ◌&&◌, ◌||◌, Option, none, some, List, [], ◌∷◌, ◌++◌, ◌==◌, if◌then◌else◌,
  not, exists,
}
use confd.Std.Text.{Text, codes, split, join}

abbrev pub slash : ℕ
slash = b'/'

-- Elements that `Clean` drops: the empty one and `.`
unfoldable pub is_dot : Text → Bool
is_dot [] = true
is_dot (c ∷ []) = c == b'.'
is_dot (c ∷ d ∷ s) = false

unfoldable pub is_dot_dot : Text → Bool
is_dot_dot (c ∷ d ∷ []) = c == b'.' && d == b'.'
is_dot_dot s = false

-- `..` against the elements kept so far, the last one first.
pub back : Bool → List Text → List Text
unfolding is_dot_dot
back true [] = []
back false [] = codes ".." ∷ []
back rooted (top ∷ stack) = if is_dot_dot top then codes ".." ∷ top ∷ stack else stack

pub resolve_step : Bool → List Text → Text → List Text
unfolding back is_dot is_dot_dot
resolve_step rooted stack name =
    if is_dot name then stack else if is_dot_dot name then back rooted stack else name ∷ stack

pub resolve : Bool → List Text → List Text → List Text
unfolding resolve_step
resolve rooted stack [] = reverse stack
resolve rooted stack (name ∷ names) = resolve rooted (resolve_step rooted stack name) names

pub render : Bool → List Text → Text
unfolding join
render true names = slash ∷ join names (slash ∷ [])
render false [] = codes "."
render false (name ∷ names) = join (name ∷ names) (slash ∷ [])

pub is_rooted : Text → Bool
is_rooted [] = false
is_rooted (c ∷ s) = c == slash

-- `path.Clean(p)`
unfoldable pub clean : Text → Text
unfolding resolve render split is_rooted
clean p = render (is_rooted p) (resolve (is_rooted p) [] (split p slash))

-- The elements with slashes between them, from the first one that is not empty.
pub join_raw : Text → List Text → Text
join_raw buf [] = buf
join_raw [] (e ∷ es) = join_raw e es
join_raw (c ∷ buf) (e ∷ es) = join_raw (c ∷ buf ++ (slash ∷ e)) es

pub clean_or_empty : Text → Text
unfolding clean
clean_or_empty [] = []
clean_or_empty (c ∷ s) = clean (c ∷ s)

-- `path.Join(elems...)`, and `filepath.Join` on Unix.
unfoldable pub path_join : List Text → Text
unfolding join_raw clean_or_empty
path_join elems = clean_or_empty (join_raw [] elems)

-- What stands up to the last slash, with it, and what stands behind.
pub split_last : Text → Text × Text
split_last [] = ([], [])
split_last (c ∷ s) =
    let (dir, file) = split_last s in
    elim dir [
      | [] ↦ (if c == slash then (c ∷ [], file) else ([], c ∷ file))
      | d ∷ ds ↦ (c ∷ d ∷ ds, file)
    ]

-- `path.Dir(p)`
unfoldable pub path_dir : Text → Text
unfolding split_last clean
path_dir p = clean (split_last p).0

pub strip_slashes : Text → Text
strip_slashes [] = []
strip_slashes (c ∷ s) =
    let rest = strip_slashes s in
    elim rest [ [] ↦ (if c == slash then [] else c ∷ []) | d ∷ ds ↦ c ∷ d ∷ ds ]

-- `path.Base(p)`
unfoldable pub path_base : Text → Text
unfolding strip_slashes split_last
path_base [] = codes "."
path_base (c ∷ p) =
    let name = (split_last (strip_slashes (c ∷ p))).1 in
    elim name [ [] ↦ slash ∷ [] | d ∷ ds ↦ d ∷ ds ]

-- `filepath.Ext(p)`: what stands from the last dot, where no slash stands behind it.
unfoldable pub path_ext : Text → Text
path_ext [] = []
path_ext (c ∷ p) =
    let rest = path_ext p in
    elim rest [
      | [] ↦ (if c == b'.' && not (exists (λ d. d == slash) p) then c ∷ p else [])
      | d ∷ ds ↦ d ∷ ds
    ]
