-- ===== src/Platform/Laws.antt =====
-- What the program relies on of the file system and of `memkv`: which files an operation leaves
-- alone, and what it leaves behind where it returns no error.
use confd.Prelude.{ℕ, ◌≡◌, ◌≢◌, Option, none, some, [], if◌then◌else◌}
use confd.Std.Text.{Text, same}
use confd.Std.Int.{ℤ}
use confd.Std.Result.{ok, err}
use confd.Platform.{Platform, File, missing}

-- The files, as the operations show them. A path names one file, and no two paths share one.
pub record FileModel (P : Platform) : Type 0 where
  pub file : Text → P.State → Option File
  -- `os.Stat` misses exactly what is not there, and tells the mode of what is.
  pub stat_missing : (p : Text) (s : P.State) → P.stat p s ≡ missing → file p s ≡ none
  pub stat_none : (p : Text) (s : P.State) → file p s ≡ none → P.stat p s ≡ missing
  pub open_ok : (p : Text) (s : P.State) (f : File) → P.open_file p s ≡ ok f → file p s ≡ some f
  pub read_ok :
      (p : Text) (s : P.State) (c : Text)
      → P.read_file p s ≡ ok c
      → (f : File) × (file p s ≡ some f) × (f.contents ≡ c)
  -- A temporary file has a name that was free.
  pub temp_fresh : (d b n : Text) (s : P.State) → (P.temp_file d b s).0 ≡ ok n → file n s ≡ none
  pub temp_other :
      (d b n q : Text) (s : P.State)
      → (P.temp_file d b s).0 ≡ ok n
      → n ≢ q
      → file q (P.temp_file d b s).1 ≡ file q s
  pub temp_err :
      (d b q e : Text) (s : P.State)
      → (P.temp_file d b s).0 ≡ err e
      → file q (P.temp_file d b s).1 ≡ file q s
  -- Each operation changes the files that it is told to change.
  pub execute_other :
      (t : P.Template) (k : P.Store) (n q : Text) (s : P.State)
      → n ≢ q
      → file q (P.execute t k n s).1 ≡ file q s
  pub remove_other : (n q : Text) (s : P.State) → n ≢ q → file q (P.remove n s) ≡ file q s
  pub chmod_other : (n q : Text) (m : ℕ) (s : P.State) → n ≢ q → file q (P.chmod n m s) ≡ file q s
  pub chown_other :
      (n q : Text) (u g : ℤ) (s : P.State) → n ≢ q → file q (P.chown n u g s) ≡ file q s
  pub write_other :
      (n q c : Text) (m : ℕ) (s : P.State) → n ≢ q → file q (P.write_file n c m s).1 ≡ file q s
  pub write_ok :
      (n c : Text) (m : ℕ) (s : P.State)
      → (P.write_file n c m s).0 ≡ ok tt
      → (f : File) × (file n (P.write_file n c m s).1 ≡ some f) × (f.contents ≡ c)
  -- A change of owner keeps the contents.
  pub chown_contents :
      (n : Text) (u g : ℤ) (s : P.State) (f : File)
      → file n s ≡ some f
      → (h : File) × (file n (P.chown n u g s) ≡ some h) × (h.contents ≡ f.contents)
  -- A rename moves a file, or fails and moves none.
  pub rename_ok :
      (a b : Text) (s : P.State) → (P.rename a b s).0 ≡ ok tt → file b (P.rename a b s).1 ≡ file a s
  pub rename_other :
      (a b q : Text) (s : P.State) → a ≢ q → b ≢ q → file q (P.rename a b s).1 ≡ file q s
  pub rename_err :
      (a b q e : Text) (s : P.State)
      → (P.rename a b s).0 ≡ err e
      → file q (P.rename a b s).1 ≡ file q s

-- Templates that print a text of the store alone, and what becomes of the file they are run into.
pub record RenderModel (P : Platform) (M : FileModel P) : Type 0 where
  pub rendered : P.Template → P.Store → Text
  -- A temporary file is empty.
  pub temp_empty :
      (d b n : Text) (s : P.State)
      → (P.temp_file d b s).0 ≡ ok n
      → (f : File) × (M.file n (P.temp_file d b s).1 ≡ some f) × (f.contents ≡ [])
  -- A run into an empty file that returns no error has written all of the text.
  pub execute_ok :
      (t : P.Template) (k : P.Store) (n : Text) (s : P.State) (f : File)
      → M.file n s ≡ some f
      → f.contents ≡ []
      → (P.execute t k n s).0 ≡ ok tt
      → (g : File) × (M.file n (P.execute t k n s).1 ≡ some g) × (g.contents ≡ rendered t k)
  -- A change of mode keeps the contents.
  pub chmod_contents :
      (n : Text) (m : ℕ) (s : P.State) (f : File)
      → M.file n s ≡ some f
      → (g : File) × (M.file n (P.chmod n m s) ≡ some g) × (g.contents ≡ f.contents)

-- `memkv.Store`: a map from keys to values, and `Purge` empties it.
pub record StoreModel (P : Platform) : Type 0 where
  pub get-set :
      (k v j : Text) (m : P.Store)
      → P.store_get j (P.store_set k v m) ≡ (if same k j then some v else P.store_get j m)
  pub get-purge : (j : Text) (m : P.Store) → P.store_get j (P.purge m) ≡ none
