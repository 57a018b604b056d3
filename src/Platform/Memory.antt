-- ===== src/Platform/Memory.antt =====
-- A platform in memory, at which the theorems are tried: files in a map, a template whose text is
-- the one key that it prints, and a shell whose command `false…` fails.
pub mod Lawful
use confd.Prelude.{
  ℕ, ◌≡◌, refl, Bool, true, false, not, Option, none, some, List, [], ◌∷◌, ◌++◌, map, if◌then◌else◌,
  is_some, keep_if,
}
use confd.Std.Text.{Text, codes, same, has_prefix, has_suffix}
use confd.Std.Result.{Result, ok, err}
use confd.Std.Exec.{Exec}
use confd.Std.Dict.{Dict, lookup, insert, erase}
use confd.Std.Int.{ℤ, pos, negsuc}
use confd.Std.Path.{path_base}
use confd.Platform.{Platform, Stat, found, missing, failed, File, ResourceFields}

pub record Disk : Type 0 where
  pub files : Dict File
  -- destinations that cannot be renamed to
  pub mounts : List Text
  -- the commands that were run, the last one first
  pub ran : List Text

abbrev pub mem : Text → List Text → Bool
mem p [] = false
mem p (q ∷ qs) = if same q p then true else mem p qs

abbrev to_uint : ℤ → ℕ
to_uint (pos n) = n
to_uint (negsuc n) = 0

abbrev pub file_at : Text → Disk → Option File
file_at p d = lookup p d.files

abbrev stat_of : Option File → Stat
stat_of none = missing
stat_of (some f) = found f.mode

abbrev opened : Option File → Result File
opened none = err (codes "no such file")
opened (some f) = ok f

abbrev pub read : Option File → Result Text
read none = err (codes "no such file")
read (some f) = ok f.contents

abbrev pub put : Text → File → Disk → Disk
put p f d = record d { files = insert p f d.files }

abbrev pub drop_file : Text → Disk → Disk
drop_file p d = record d { files = erase p d.files }

-- A change to a file that may be missing.
abbrev pub change : Text → (File → File) → Option File → Disk → Disk
change p g none d = d
change p g (some f) d = put p (g f) d

abbrev pub with_contents : Text → ℕ → Option File → File
with_contents c m none = record { uid = 0; gid = 0; mode = m; contents = c }
with_contents c m (some f) = record f { contents = c }

abbrev pub create_temp : Text → Option File → Exec Disk Text
create_temp name none d =
    (ok name, put name (record { uid = 0; gid = 0; mode = 384; contents = [] }) d)
create_temp name (some f) d = (err (codes "file exists"), d)

abbrev pub move_to : Text → Text → Bool → Option File → Exec Disk (Unit {0})
move_to a b mounted none d = (err (codes "no such file"), d)
move_to a b true (some f) d = (err (codes "device or resource busy"), d)
move_to a b false (some f) d = (ok tt, put b f (drop_file a d))

abbrev pub print : Text → Option Text → Exec Disk (Unit {0})
print name none d = (err (codes "key does not exist"), d)
print name (some v) d = (ok tt, change name (λ f. record f { contents = v }) (file_at name d) d)

abbrev decoded : ResourceFields → Option File → Result ResourceFields
decoded unset none = err (codes "no such file")
decoded unset (some f) =
    ok (record unset { src = codes "app"; dest = f.contents; keys = codes "/k" ∷ [] })

abbrev ends_in : Text → Text → Result Bool
ends_in [] name = ok false
ends_in (c ∷ pattern) name = ok (has_suffix name pattern)

abbrev run : Text → Exec Disk (Unit {0})
run cmd d = (
  if has_prefix cmd (codes "false") then err (codes "exit status 1") else ok tt,
  record d { ran = cmd ∷ d.ran },
)

abbrev pub memory : Platform
memory = record {
  State = Disk;
  stat = λ p d. stat_of (file_at p d);
  open_file = λ p d. opened (file_at p d);
  read_file = λ p d. read (file_at p d);
  write_file = λ p c m d. (ok tt, put p (with_contents c m (file_at p d)) d);
  temp_file = λ dir name d.
      let path : Text = dir ++ (codes "/" ++ (name ++ codes "1")) in
      create_temp path (file_at path d) d;
  remove = drop_file;
  chmod = λ p m d. change p (λ f. record f { mode = m }) (file_at p d) d;
  chown = λ p u g d. change p (λ f. record f { uid = to_uint u; gid = to_uint g }) (file_at p d) d;
  rename = λ a b d. move_to a b (mem b d.mounts) (file_at a d) d;
  eval_symlinks = λ p d. ok p;
  stat_is_dir = λ p d. ok (not (is_some (file_at p d)));
  walk = λ root d. map (λ (p, f). (p, path_base p)) (keep_if (λ (p, f). has_prefix p root) d.files);
  glob_match = ends_in;
  run_command = run;
  lookup_user = λ name d. err (codes "unknown user");
  lookup_group = λ name d. err (codes "unknown group");
  euid = λ d. pos 0;
  egid = λ d. pos 0;
  decode_toml = λ p unset d. decoded unset (file_at p d);
  Store = Dict Text;
  new_store = [];
  purge = λ m. [];
  store_set = insert;
  store_get = lookup;
  Template = Text;
  parse_template = λ p d. read (file_at p d);
  execute = λ key m name d. print name (lookup key m) d;
  render_command = λ cmd src. ok (cmd ++ src);
  md5 = λ c. c;
}
