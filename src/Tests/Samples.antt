-- ===== src/Tests/Samples.antt =====
-- A machine with one template, one destination and a backend with one key under `/p`.
use confd.Prelude.{◌+◌, Bool, true, false, none, some, [], ◌∷◌}
use confd.Std.Text.{Text, codes}
use confd.Std.Result.{ok}
use confd.Std.Int.{pos}
use confd.Platform.{File, StoreClient, ResourceFields}
use confd.Platform.Memory.{Disk, memory}
use confd.Template.Resource.{Config, TemplateResource, World}

abbrev pub text_file : Text → File
text_file contents = record { uid = 0; gid = 0; mode = 420; contents = contents }

abbrev pub conf : Text
conf = codes "/etc/app"

abbrev pub hosts : Text
hosts = codes "/etc/h"

abbrev pub staged : Text
staged = codes "/etc/.app1"

abbrev pub disk : Disk
disk = record {
  files =
      (codes "/t/app", text_file (codes "/k"))
      ∷ (conf, text_file (codes "old"))
      ∷ (hosts, text_file (codes "h"))
      ∷ [];
  mounts = [];
  ran = [];
}

-- The same with a staged file beside the destination.
abbrev pub staged_disk : Disk
staged_disk = record disk { files = (staged, text_file (codes "v")) ∷ disk.files }

abbrev pub client : StoreClient memory
client = record {
  get_values = λ keys d. (ok ((codes "/p/k", codes "v") ∷ []), d);
  watch_prefix = λ prefix keys index d. (ok (index + 1), d);
}

-- A resource that is in noop mode, or runs no command, or has the check command given.
abbrev pub app : Bool → Bool → Text → TemplateResource memory
app noop sync_only check_cmd = record {
  check_cmd = check_cmd;
  dest = conf;
  file_mode = 420;
  gid = pos 0;
  group = [];
  keys = codes "/k" ∷ [];
  mode = [];
  owner = [];
  prefix = codes "/p";
  reload_cmd = codes "reload";
  src = codes "/t/app";
  stage_file = none;
  uid = pos 0;
  last_index = 0;
  keep_stage_file = false;
  noop = noop;
  store = [];
  store_client = client;
  sync_only = sync_only;
}

abbrev pub world : TemplateResource memory → World memory
world t = record { resource = t; outside = disk }

abbrev pub config : Config memory
config = record {
  conf_dir = codes "/c";
  config_dir = codes "/c/d";
  keep_stage_file = false;
  noop = false;
  prefix = codes "p";
  store_client = some client;
  sync_only = true;
  template_dir = codes "/t";
}

-- A machine with the file of one resource, whose destination is `/etc/app`.
abbrev pub config_disk : Disk
config_disk = record disk {
  files = (codes "/c", text_file []) ∷ (codes "/c/d/x.toml", text_file conf) ∷ disk.files;
}

-- The fields that its file sets.
abbrev pub fields : ResourceFields → ResourceFields
fields unset = record unset { src = codes "app"; dest = conf; keys = codes "/k" ∷ [] }
