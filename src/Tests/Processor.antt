-- ===== src/Tests/Processor.antt =====
-- Loading and running resources, in memory.
use confd.Prelude.{◌≡◌, refl, true, false, none, List, [], ◌∷◌}
use confd.Std.Text.{Text, codes, text_dec, has_prefix, has_suffix}
use confd.Std.Result.{ok}
use confd.Std.Dict.{lookup}
use confd.Std.Path.{path_base, path_join}
use confd.Util.Files.{is_file_exist}
use confd.Util.Lookup.{recursive_files_lookup, recursive_lookup, is_directory, visit, visit_all}
use confd.Platform.{ResourceFields}
use confd.Platform.Memory.{memory}
use confd.Template.Resource.{TemplateResource}
use confd.Template.Resource.Load.{
  unset_fields, choose_prefix, override, choose_id, id_of_name, finish_resource, user_id, group_id,
  new_template_resource,
}
use confd.Template.Resource.Load.Settled.{Settled, new_template_resource-Settled}
use confd.Template.Processor.{process_once}
use confd.Template.Processor.Once.{
  last_error, loadable, load_errors, all_or_nothing, process_once_lem,
}
use confd.Tests.Samples.{app, config, config_disk}

paths : List Text
paths = codes "/c/d/x.toml" ∷ []

conf_dir_exists : is_file_exist memory config.conf_dir config_disk ≡ true
unfolding is_file_exist lookup text_dec
conf_dir_exists = refl

found_paths : recursive_files_lookup memory config.config_dir (codes "*toml") config_disk ≡ ok paths
unfolding recursive_files_lookup recursive_lookup is_directory visit visit_all paths lookup text_dec
    has_prefix has_suffix path_base
found_paths = refl

process_once_lem_example :
    process_once memory config config_disk
    ≡ all_or_nothing memory
        (last_error memory none (load_errors memory config paths config_disk))
        (loadable memory config paths config_disk)
        config_disk
process_once_lem_example =
    process_once_lem memory config config_disk paths conf_dir_exists found_paths

loaded : TemplateResource memory
loaded = record (app false true []) { prefix = codes "/p"; reload_cmd = []; file_mode = 0 }

loads : new_template_resource memory (codes "/c/d/x.toml") config config_disk ≡ ok loaded
unfolding new_template_resource finish_resource user_id group_id choose_id id_of_name choose_prefix
    override loaded lookup text_dec has_prefix path_join
loads = refl

new_template_resource-Settled_example :
    (f : ResourceFields) × (memory.decode_toml (codes "/c/d/x.toml") unset_fields config_disk
      ≡ ok f)
    × Settled memory config f config_disk loaded
new_template_resource-Settled_example =
    new_template_resource-Settled memory (codes "/c/d/x.toml") config config_disk loaded loads
