-- ===== src/Tests/Onetime.antt =====
-- A run with `-onetime` from the flags to the destination, in memory.
use confd.Prelude.{◌≡◌, refl, some, true, [], ◌∷◌}
use confd.Std.Text.{codes, text_dec, has_prefix, has_suffix, trim_prefix}
use confd.Std.Result.{ok}
use confd.Std.Dict.{lookup, insert, erase}
use confd.Std.Path.{path_dir, path_base, path_join}
use confd.Util.{append_prefix}
use confd.Util.Files.{is_file_exist, file_stat, info_differs, is_config_changed}
use confd.Util.Lookup.{recursive_files_lookup, recursive_lookup, is_directory, visit, visit_all}
use confd.Platform.Memory.{Disk, memory}
use confd.Template.Resource.Load.{
  choose_prefix, override, choose_id, id_of_name, finish_resource, user_id, group_id,
  new_template_resource,
}
use confd.Template.Resource.Vars.{
  set_all, store_key, set_vars, set_file_mode, fill_store, choose_mode, store_mode,
}
use confd.Template.Resource.Stage.{
  stage, finish_stage, create_stage_file, stage_parsed, set_stage_file,
}
use confd.Template.Resource.Sync.{
  check_first, overwrite, after_rename, update, sync_body, sync_staged, sync_with, sync,
  reload_after, clean_up,
}
use confd.Template.Resource.Run.{process}
use confd.Template.Processor.{
  get_template_resources, load_all, load_found, load_step, process_from, process_all,
  process_loaded, process_once,
}
use confd.Backends.Choice.{new_client, new_named, backend_or_etcd}
use confd.Command.Settings.{Settings, flag_defaults, backends_config, template_config}
use confd.Command.Config
use confd.Command.Config.{Host, ready, init_config}
use confd.Command.Main.{
  done_once, after_once, run_with, Connect, run_connected, run_created, run_ready, main,
}
use confd.Command.Main.Succeeds.{Completes, main-done_once}
use confd.Tests.Samples.{text_file, conf, disk, client}
use confd.Tests.Command.{host}

abbrev flags : Settings
flags = record flag_defaults {
  backend = codes "env";
  conf_dir = codes "/c";
  prefix = codes "p";
  one_time = true;
  config_file = codes "/c/confd.toml";
}

-- A machine with the file of one resource and its template.
abbrev once_disk : Disk
once_disk = record disk {
  files =
      (codes "/c", text_file [])
      ∷ (codes "/c/conf.d/x.toml", text_file conf)
      ∷ (codes "/c/templates/app", text_file (codes "/k"))
      ∷ (conf, text_file (codes "old"))
      ∷ [];
}

abbrev after : Disk
after = record disk {
  files =
      (codes "/c", text_file [])
      ∷ (codes "/c/conf.d/x.toml", text_file conf)
      ∷ (codes "/c/templates/app", text_file (codes "/k"))
      ∷ (conf, text_file (codes "v"))
      ∷ [];
}

abbrev connect : Connect memory
connect _ = some (ok client)

ends_well : main memory host connect flags once_disk ≡ done_once after
unfolding main run_ready run_created run_connected run_with after_once init_config
    Config.configure_loaded Config.configure Config.bad_level Config.finish Config.load_file
    Config.use_record text_dec Config.name_record Config.process_env Config.check_settings
    Config.fill_nodes Config.is_unsupported Config.nodes_or Config.env_or path_join
    Config.default_nodes backends_config template_config new_client new_named backend_or_etcd
    get_template_resources load_all load_found load_step process_from process_all process_loaded
    process_once new_template_resource finish_resource user_id group_id choose_id id_of_name
    choose_prefix override lookup has_prefix has_suffix recursive_files_lookup recursive_lookup
    is_directory visit visit_all process stage finish_stage set_all store_key set_file_mode
    choose_mode store_mode set_vars fill_store create_stage_file stage_parsed set_stage_file sync
    sync_with sync_staged sync_body is_config_changed is_file_exist file_stat info_differs update
    check_first overwrite after_rename reload_after clean_up insert erase append_prefix path_dir
    path_base trim_prefix
ends_well = refl

main-done_once_example :
    (d : Settings) × (init_config host flags ≡ ready d)
    × (d.one_time ≡ true)
    × Completes memory connect d once_disk after
main-done_once_example = main-done_once memory host connect flags once_disk after ends_well
