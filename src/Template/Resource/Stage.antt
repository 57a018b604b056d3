-- ===== src/Template/Resource/Stage.antt =====
-- `CreateStageFile`.
pub mod Frame
pub mod Written
use confd.Prelude.{
  ℕ, ◌≡◌, refl, Bool, true, false, not, Option, none, some, List, [], ◌∷◌, ◌++◌, if◌then◌else◌,
}
use confd.Std.Text.{Text, codes}
use confd.Std.Result.{Error, Result, ok, err}
use confd.Std.Exec.{Exec, continue, ◌>>=◌}
use confd.Std.Path.{path_dir, path_base}
use confd.Util.Files.{is_file_exist}
use confd.Platform.{Platform}
use confd.Template.Resource.{TemplateResource, World, Method}

module _ (P : Platform) where
  -- After the template has run: the mode and the owner are set, their errors dropped, or the
  -- temporary file is removed.
  unfoldable pub finish_stage :
      TemplateResource P → Text → Result (Unit {0}) × P.State → Result Text × P.State
  finish_stage t temp (ok _, s) = (ok temp, P.chown temp t.uid t.gid (P.chmod temp t.file_mode s))
  finish_stage t temp (err e, s) = (err e, P.remove temp s)

  -- The temporary file in the folder of the destination, filled by the template.
  unfoldable pub stage : TemplateResource P → P.Template → Exec P.State Text
  stage t tmpl = do
    temp ← P.temp_file (path_dir t.dest) (codes "." ++ path_base t.dest)
    λ s. finish_stage t temp (P.execute tmpl t.store temp s)

  unfoldable pub set_stage_file : World P → Result Text × P.State → Result (Unit {0}) × World P
  set_stage_file w (ok temp, s) =
      (ok tt, record { resource = record (w.resource) { stage_file = some temp }; outside = s })
  set_stage_file w (err e, s) = (err e, record w { outside = s })

  unfoldable pub stage_parsed : Result P.Template → Method P
  stage_parsed (ok tmpl) w = set_stage_file w (stage w.resource tmpl w.outside)
  stage_parsed (err e) w =
      (err (codes "Unable to process template " ++ (w.resource.src ++ (codes ", " ++ e))), w)

  -- `CreateStageFile`
  unfoldable pub create_stage_file : Method P
  create_stage_file w =
      if not (is_file_exist P w.resource.src w.outside)
      then (err (codes "Missing template: " ++ w.resource.src), w)
      else stage_parsed (P.parse_template w.resource.src w.outside) w
