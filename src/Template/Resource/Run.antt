-- ===== src/Template/Resource/Run.antt =====
-- `process`.
pub mod Keeps
pub mod Settings
pub mod Renders
use confd.Std.Exec.{◌>>=◌, ◌>>◌, continue}
use confd.Platform.{Platform}
use confd.Template.Resource.{World, Method}
use confd.Template.Resource.Vars.{set_vars, set_file_mode}
use confd.Template.Resource.Stage.{create_stage_file}
use confd.Template.Resource.Sync.{sync}

module _ (P : Platform) where
  unfoldable pub process : Method P
  process = do set_file_mode P; set_vars P; create_stage_file P; sync P
