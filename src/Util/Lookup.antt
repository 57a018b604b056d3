-- ===== src/Util/Lookup.antt =====
-- pkg/util: `IsDirectory`, `RecursiveFilesLookup` and `RecursiveDirsLookup`.
use confd.Prelude.{Bool, true, false, not, ◌&&◌, ◌||◌, List, [], ◌∷◌, ◌++◌, if◌then◌else◌}
use confd.Std.Text.{Text}
use confd.Std.Result.{Result, ok, ◌>>=◌}
use confd.Platform.{Platform}

module _ (P : Platform) where
  -- `IsDirectory`
  unfoldable pub is_directory : Text → P.State → Result Bool
  is_directory path s = P.stat_is_dir path s

  -- The function that `filepath.Walk` calls at one path: what it appends to the result.
  unfoldable pub visit : Text → Bool → Text × Text → P.State → Result (List Text)
  visit pattern dirs (path, name) s = do
    match ← P.glob_match pattern name
    if match
        then (do
          root ← P.eval_symlinks path s
          is_dir ← is_directory root s
          ok (if (is_dir && dirs) || (not is_dir && not dirs) then root ∷ [] else []))
        else ok []

  -- The walk, which an error ends.
  unfoldable pub visit_all :
      Text → Bool → List (Text × Text) → List Text → P.State → Result (List Text)
  visit_all pattern dirs [] result s = ok result
  visit_all pattern dirs (entry ∷ entries) result s = do
    more ← visit pattern dirs entry s
    visit_all pattern dirs entries (result ++ more) s

  -- `recursiveLookup`
  unfoldable pub recursive_lookup : Text → Text → Bool → P.State → Result (List Text)
  recursive_lookup root pattern dirs s = do
    top ← P.eval_symlinks root s
    is_dir ← is_directory top s
    if is_dir
        then visit_all pattern dirs (P.walk top s) [] s
        else ok (if dirs then [] else top ∷ [])

  -- `RecursiveFilesLookup` and `RecursiveDirsLookup`
  unfoldable pub recursive_files_lookup : Text → Text → P.State → Result (List Text)
  recursive_files_lookup root pattern s = recursive_lookup root pattern false s

  unfoldable pub recursive_dirs_lookup : Text → Text → P.State → Result (List Text)
  recursive_dirs_lookup root pattern s = recursive_lookup root pattern true s
