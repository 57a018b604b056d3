-- ===== src/Template/Resource.antt =====
-- pkg/template/resource.go: the data of a template resource, and the file mode and variables that
-- it takes from the destination and from the store.
pub mod Load
pub mod Vars
pub mod Stage
pub mod Sync
pub mod Run
use confd.Prelude.{ℕ, Bool, true, false, Option, none, some, List, [], ◌∷◌}
use confd.Std.Text.{Text}
use confd.Std.Exec.{Exec}
use confd.Std.Int.{ℤ}
use confd.Platform.{Platform, StoreClient, ResourceFields}

-- `Config`. `store_client` is `none` where it is nil.
pub record Config (P : Platform) : Type 0 where
  pub conf_dir : Text
  pub config_dir : Text
  pub keep_stage_file : Bool
  pub noop : Bool
  pub prefix : Text
  pub store_client : Option (StoreClient P)
  pub sync_only : Bool
  pub template_dir : Text

-- `TemplateResource`. The function map is part of the platform's template engine, `fs` is the
-- platform, and a stage file is known by its name.
pub record TemplateResource (P : Platform) : Type 0 where
  pub check_cmd : Text
  pub dest : Text
  pub file_mode : ℕ
  pub gid : ℤ
  pub group : Text
  pub keys : List Text
  pub mode : Text
  pub owner : Text
  pub prefix : Text
  pub reload_cmd : Text
  pub src : Text
  pub stage_file : Option Text
  pub uid : ℤ
  pub last_index : ℕ
  pub keep_stage_file : Bool
  pub noop : Bool
  pub store : P.Store
  pub store_client : StoreClient P
  pub sync_only : Bool

-- A resource, which its methods change, and the machine outside.
pub record World (P : Platform) : Type 0 where
  pub resource : TemplateResource P
  pub outside : P.State

-- A method of the resource that may return an error.
abbrev pub Method : Platform → Type 0
Method P = Exec (World P) (Unit {0})
