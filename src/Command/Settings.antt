-- ===== src/Command/Settings.antt =====
-- cmd/confd/config.go: the configuration and its flags. Go reaches the fields of the two embedded
-- structs by their own names.
use confd.Prelude.{Bool, false, Option, List, []}
use confd.Std.Text.{Text, codes}
use confd.Std.Int.{ℤ, pos}
use confd.Platform.{Platform, StoreClient}
use confd.Backends.Choice
use confd.Template.Resource

-- `Config`. It declares a field `ClientInsecure` of its own beside that of the backends.
pub record Settings : Type 0 where
  -- TemplateConfig
  pub conf_dir : Text
  pub config_dir : Text
  pub keep_stage_file : Bool
  pub noop : Bool
  pub prefix : Text
  pub sync_only : Bool
  pub template_dir : Text
  -- BackendsConfig
  pub auth_token : Text
  pub auth_type : Text
  pub backend : Text
  pub basic_auth : Bool
  pub client_ca_keys : Text
  pub client_cert : Text
  pub client_key : Text
  pub backends_client_insecure : Bool
  pub backend_nodes : List Text
  pub password : Text
  pub scheme : Text
  pub table : Text
  pub separator : Text
  pub username : Text
  pub app_id : Text
  pub user_id : Text
  pub role_id : Text
  pub secret_id : Text
  pub yaml_file : List Text
  pub filter : Text
  pub path : Text
  pub role : Text
  -- its own
  pub interval : ℤ
  pub srv_domain : Text
  pub srv_record : Text
  pub log_level : Text
  pub watch : Bool
  pub print_version : Bool
  pub config_file : Text
  pub one_time : Bool
  pub client_insecure : Bool

-- What the flags leave where none is given: their defaults, and Go's zero for a field that has no
-- flag.
abbrev pub flag_defaults : Settings
flag_defaults = record {
  conf_dir = codes "/etc/confd";
  config_dir = [];
  keep_stage_file = false;
  noop = false;
  prefix = [];
  sync_only = false;
  template_dir = [];
  auth_token = [];
  auth_type = [];
  backend = [];
  basic_auth = false;
  client_ca_keys = [];
  client_cert = [];
  client_key = [];
  backends_client_insecure = false;
  backend_nodes = [];
  password = [];
  scheme = codes "http";
  table = [];
  separator = [];
  username = [];
  app_id = [];
  user_id = [];
  role_id = [];
  secret_id = [];
  yaml_file = [];
  filter = codes "*";
  path = [];
  role = [];
  interval = pos 600;
  srv_domain = [];
  srv_record = [];
  log_level = [];
  watch = false;
  print_version = false;
  config_file = codes "/etc/confd/confd.toml";
  one_time = false;
  client_insecure = false;
}

-- `config.BackendsConfig`
unfoldable pub backends_config : Settings → Choice.Config
backends_config c = record {
  auth_token = c.auth_token;
  auth_type = c.auth_type;
  backend = c.backend;
  basic_auth = c.basic_auth;
  client_ca_keys = c.client_ca_keys;
  client_cert = c.client_cert;
  client_key = c.client_key;
  client_insecure = c.backends_client_insecure;
  backend_nodes = c.backend_nodes;
  password = c.password;
  scheme = c.scheme;
  table = c.table;
  separator = c.separator;
  username = c.username;
  app_id = c.app_id;
  user_id = c.user_id;
  role_id = c.role_id;
  secret_id = c.secret_id;
  yaml_file = c.yaml_file;
  filter = c.filter;
  path = c.path;
  role = c.role;
}

-- `config.TemplateConfig`, with its client.
unfoldable pub template_config :
    (P : Platform) → Settings → Option (StoreClient P) → Resource.Config P
template_config P c client = record {
  conf_dir = c.conf_dir;
  config_dir = c.config_dir;
  keep_stage_file = c.keep_stage_file;
  noop = c.noop;
  prefix = c.prefix;
  store_client = client;
  sync_only = c.sync_only;
  template_dir = c.template_dir;
}
