-- ===== src/Tests/Rendering.antt =====
-- A whole run of a resource, in memory.
use confd.Prelude.{◌≡◌, refl, true, false, [], ◌++◌, arith}
use confd.Std.Text.{codes, text_dec, has_prefix, trim_prefix}
use confd.Std.Result.{ok}
use confd.Std.Dict.{lookup, insert, erase}
use confd.Std.Path.{path_dir, path_base, path_join}
use confd.Util.{append_prefix}
use confd.Util.Files.{is_file_exist, file_stat, info_differs, is_config_changed}
use confd.Platform.Memory.{memory}
use confd.Platform.Memory.Lawful.{memory-FileModel, memory-RenderModel, temp-memory}
use confd.Template.Resource.Vars.{
  set_all, store_key, set_vars, set_file_mode, fill_store, choose_mode, store_mode,
}
use confd.Template.Resource.Stage.{
  stage, finish_stage, create_stage_file, stage_parsed, set_stage_file,
}
use confd.Template.Resource.Stage.Written.{Beside}
use confd.Template.Resource.Sync.{
  check_first, overwrite, after_rename, update, sync_body, sync_staged, sync_with, sync,
  reload_after, clean_up,
}
use confd.Template.Resource.Run.{process}
use confd.Template.Resource.Run.Renders.{Renders, process-Renders}
use confd.Tests.Samples.{conf, app, world}

conf-Beside : Beside memory memory-FileModel memory-RenderModel conf
unfolding path_dir path_base
conf-Beside n s h e =
    let named = temp-memory (path_dir conf) (codes "." ++ path_base conf) n s h in
    ground (arith, named, e)

run_succeeds : (process memory (world (app false true []))).0 ≡ ok tt
unfolding process stage finish_stage set_all store_key set_file_mode choose_mode store_mode set_vars
    fill_store create_stage_file stage_parsed set_stage_file sync sync_with sync_staged sync_body
    is_config_changed is_file_exist file_stat info_differs update check_first overwrite after_rename
    reload_after clean_up lookup insert erase text_dec append_prefix path_dir path_base path_join
    has_prefix trim_prefix
run_succeeds = refl

process-Renders_example :
    Renders memory memory-FileModel memory-RenderModel
      (world (app false true []))
      (set_vars memory (set_file_mode memory (world (app false true []))).1).1
      (process memory (world (app false true []))).1.outside
process-Renders_example =
    process-Renders memory memory-FileModel memory-RenderModel (world (app false true [])) refl refl
      conf-Beside run_succeeds
