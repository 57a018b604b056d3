-- ===== src/Tests/Resource.antt =====
-- Template resources: runs in memory, and the theorems at them.
use confd.Prelude.{◌≡◌, refl, sym, ◌∙◌, ◌≢◌, inl, true, false, none, some, [], ◌∷◌, arith, ◌↔◌}
use confd.Std.Text.{Text, codes, has_prefix, text_dec}
use confd.Std.Result.{ok, err}
use confd.Std.Dict.{lookup}
use confd.Std.Path.{is_dot, is_dot_dot}
use confd.Std.Path.Canonical.{Names}
use confd.Util.Files.{is_file_exist, file_stat, info_differs, is_config_changed}
use confd.Util.Files.Agree.{Agree, is_config_changed_iff}
use confd.Platform.Memory.{memory}
use confd.Platform.Memory.Lawful.{memory-FileModel, file-memory, memory-StoreModel}
use confd.Template.Resource.Vars.{set_vars}
use confd.Template.Resource.Vars.Contents.{set_vars-get}
use confd.Template.Resource.Sync.{
  run_command, check, check_first, overwrite, after_rename, update, sync_body, sync_staged,
  reload_after,
}
use confd.Template.Resource.Sync.Outcomes.{IsRefused, sync_staged-check}
use confd.Template.Resource.Sync.Frame.{Holds, sync_staged-Holds}
use confd.Template.Resource.{TemplateResource}
use confd.Template.Resource.Run.{process}
use confd.Template.Resource.Run.Keeps.{process-file}
use confd.Tests.Samples.{text_file, conf, staged, disk, staged_disk, app, world}

conf_is_there : memory-FileModel.file conf disk ≡ some (text_file (codes "old"))
unfolding lookup text_dec
conf_is_there = file-memory conf disk

process-file_example :
    memory-FileModel.file conf (process memory (world (app true false []))).1.outside
    ≡ some (text_file (codes "old"))
process-file_example =
    process-file memory memory-FileModel (world (app true false [])) conf (text_file (codes "old"))
      (record { get_values-file = λ keys s q. refl }) (inl refl) conf_is_there

staged_apart : staged ≢ conf
staged_apart h = ground arith

staged_is_there : memory-FileModel.file staged staged_disk ≡ some (text_file (codes "v"))
unfolding lookup text_dec
staged_is_there = file-memory staged staged_disk

-- The two files of the sample differ.
differ : (is_config_changed memory staged conf staged_disk).0 ≡ true
unfolding is_config_changed is_file_exist file_stat info_differs lookup text_dec
differ = refl

sync_succeeds : (sync_staged memory (app false true []) staged staged_disk).0 ≡ ok tt
unfolding sync_staged sync_body is_config_changed is_file_exist file_stat info_differs update
    check_first overwrite after_rename reload_after lookup text_dec
sync_succeeds = refl

sync_staged-Holds_example :
    Holds memory memory-FileModel
      (app false true [])
      (codes "v")
      (sync_staged memory (app false true []) staged staged_disk).1
sync_staged-Holds_example =
    sync_staged-Holds memory memory-FileModel (app false true []) staged staged_disk
      (text_file (codes "v")) refl refl staged_apart staged_is_there sync_succeeds

-- A resource whose check command fails.
abbrev checked : TemplateResource memory
checked = app false false (codes "false")

check_fails : (check memory checked staged staged_disk).0 ≡ err (codes "exit status 1")
unfolding check run_command has_prefix
check_fails = refl

check_writes_nothing :
    memory-FileModel.file conf (check memory checked staged staged_disk).1
    ≡ memory-FileModel.file conf staged_disk
unfolding check run_command has_prefix
check_writes_nothing =
    file-memory conf (check memory checked staged staged_disk).1
    ∙ sym (file-memory conf staged_disk)

sync_staged-check_example :
    (memory-FileModel.file conf (sync_staged memory checked staged staged_disk).1
      ≡ memory-FileModel.file conf staged_disk)
    × IsRefused memory memory-FileModel checked staged staged_disk
        (codes "exit status 1")
        (sync_staged memory checked staged staged_disk).0
sync_staged-check_example =
    sync_staged-check memory memory-FileModel checked staged staged_disk (codes "exit status 1")
      staged_apart refl refl check_fails check_writes_nothing

k_Names : Names (codes "k" ∷ [])
unfolding is_dot is_dot_dot
k_Names = (record { no_slash = (refl, tt); not_dot = refl; not_dot_dot = refl }, tt)

p_Names : Names (codes "p" ∷ [])
unfolding is_dot is_dot_dot
p_Names = (record { no_slash = (refl, tt); not_dot = refl; not_dot_dot = refl }, tt)

answered_once : lookup {V = Text} (codes "/p/k") [] ≡ none
unfolding lookup
answered_once = refl

set_vars-get_example :
    lookup (codes "/k") (set_vars memory (world (app false true []))).1.resource.store
    ≡ lookup (codes "/p/k") ((codes "/p/k", codes "v") ∷ [])
set_vars-get_example =
    set_vars-get memory memory-StoreModel (world (app false true [])) (codes "p" ∷ [])
      (codes "k" ∷ []) ((codes "/p/k", codes "v") ∷ []) disk refl p_Names k_Names refl
      ((codes "k" ∷ [], k_Names, refl), tt) (answered_once, tt)

is_config_changed_iff_example :
    ((is_config_changed memory staged conf staged_disk).0 ≡ false)
    ↔ Agree memory staged conf staged_disk
is_config_changed_iff_example = is_config_changed_iff memory staged conf staged_disk
