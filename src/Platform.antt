-- ===== src/Platform.antt =====
-- What the program calls and does not implement, over one state of the machine outside it: the
-- file system behind `afero.Fs`, the shell, the user database, the TOML decoder, the template
-- engine with the functions that confd adds to it, and `memkv.Store`.
pub mod Laws
pub mod Memory
use confd.Prelude.{ℕ, Bool, Option, List, ◌≡◌}
use confd.Std.Text.{Text}
use confd.Std.Result.{Result}
use confd.Std.Exec.{Exec}
use confd.Std.Dict.{Dict}
use confd.Std.Int.{ℤ}

-- What `os.Stat` finds: a file with its mode, nothing (`os.IsNotExist`), or another error.
pub data Stat : Type 0 where
  found : ℕ → Stat
  missing : Stat
  failed : Text → Stat

-- An open file: what `Stat` says of the handle, and all that can be read from it.
pub record File : Type 0 where
  pub uid : ℕ
  pub gid : ℕ
  pub mode : ℕ
  pub contents : Text

-- The fields that a template resource's TOML file can set.
pub record ResourceFields : Type 0 where
  pub check_cmd : Text
  pub dest : Text
  pub file_mode : ℕ
  pub gid : ℤ
  pub group : Text
  pub keys : List Text
  pub mode : Text
  pub owner : Text
  pub prefix : Text
  pub reload_cmd : Text
  pub src : Text
  pub uid : ℤ

pub record Platform : Type 1 where
  pub State : Type 0
  -- `afero.Fs`
  pub stat : Text → State → Stat
  pub open_file : Text → State → Result File
  pub read_file : Text → State → Result Text
  pub write_file : Text → Text → ℕ → Exec State (Unit {0})
  pub temp_file : Text → Text → Exec State Text
  pub remove : Text → State → State
  pub chmod : Text → ℕ → State → State
  pub chown : Text → ℤ → ℤ → State → State
  pub rename : Text → Text → Exec State (Unit {0})
  -- `filepath.EvalSymlinks`, the mode test of `os.Stat`, the paths and names that `filepath.Walk`
  -- visits, and `filepath.Match`
  pub eval_symlinks : Text → State → Result Text
  pub stat_is_dir : Text → State → Result Bool
  pub walk : Text → State → List (Text × Text)
  pub glob_match : Text → Text → Result Bool
  -- `/bin/sh -c`
  pub run_command : Text → Exec State (Unit {0})
  -- `user.Lookup`, `user.LookupGroup`, `os.Geteuid`, `os.Getegid`
  pub lookup_user : Text → State → Result Text
  pub lookup_group : Text → State → Result Text
  pub euid : State → ℤ
  pub egid : State → ℤ
  -- `toml.DecodeFS` into fields that have values already
  pub decode_toml : Text → ResourceFields → State → Result ResourceFields
  -- `memkv.Store`
  pub Store : Type 0
  pub new_store : Store
  pub purge : Store → Store
  pub store_set : Text → Text → Store → Store
  pub store_get : Text → Store → Option Text
  -- `text/template`: a file parsed with the functions of the resource, and run into a file; the
  -- check command parsed and run with `src` bound to a name.
  pub Template : Type 0
  pub parse_template : Text → State → Result Template
  pub execute : Template → Store → Text → Exec State (Unit {0})
  pub render_command : Text → Text → Result Text
  -- `crypto/md5`, in hexadecimal
  pub md5 : Text → Text

-- `backends.StoreClient`. A map that comes with an error is read by no caller, so it is left out.
-- `watch_prefix` is given the prefix, the keys and the last index; that the caller may stop it
-- through a channel is part of the state outside.
pub record StoreClient (P : Platform) : Type 0 where
  pub get_values : List Text → Exec P.State (Dict Text)
  pub watch_prefix : Text → List Text → ℕ → Exec P.State ℕ
