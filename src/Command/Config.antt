-- ===== src/Command/Config.antt =====
-- cmd/confd/config.go: `initConfig`, `processEnv` and `getBackendNodesFromSRV`.
pub mod Ready
use confd.Prelude.{
  ℕ, ◌≡◌, Bool, true, false, not, ◌&&◌, ◌||◌, Option, none, some, List, [], ◌∷◌, ◌++◌, map, exists,
  ◌==◌, if◌then◌else◌,
}
use confd.Std.Text.{Text, codes, same, is_set, split, trim_right}
use confd.Std.Result.{Error, Result, ok, err, ◌>>=◌, map_error}
use confd.Std.Path.{path_join}
use confd.Std.Strconv.{itoa}
use confd.Command.Settings.{Settings}

-- The process outside the command: `os.Stat` as far as `os.IsNotExist` sees it, the file read,
-- `toml.Decode` onto the settings that are there, the environment with the empty text for an unset
-- variable, whether `logrus.ParseLevel` knows a level, `net.LookupSRV` with a target and a port for each address, and `net.JoinHostPort`.
pub record Host : Type 0 where
  pub exists : Text → Bool
  pub read_file : Text → Result Text
  pub decode : Text → Settings → Result Settings
  pub getenv : Text → Text
  pub is_level : Text → Bool
  pub lookup_srv : Text → Result (List (Text × ℕ))
  pub join_host_port : Text → Text → Text

-- How `initConfig` ends: with the configuration, with an error, or with the end of the program.
pub data Outcome : Type 0 where
  ready : Settings → Outcome
  failed : Error → Outcome
  exits : Outcome

-- A variable of the environment counts where it is set and the setting is not.
unfoldable pub env_or : Text → Text → Text
env_or given [] = given
env_or given (c ∷ own) = c ∷ own

-- `processEnv`
unfoldable pub process_env : Host → Settings → Settings
process_env host c = record c {
  client_ca_keys = env_or (host.getenv (codes "CONFD_CLIENT_CAKEYS")) c.client_ca_keys;
  client_cert = env_or (host.getenv (codes "CONFD_CLIENT_CERT")) c.client_cert;
  client_key = env_or (host.getenv (codes "CONFD_CLIENT_KEY")) c.client_key;
}

-- The configuration file, where there is one, decoded over the flags.
unfoldable pub load_file : Host → Settings → Result Settings
load_file host c =
    if host.exists c.config_file
    then (do text ← host.read_file c.config_file; host.decode text c)
    else ok c

unfoldable pub srv_node : Host → Text × ℕ → Text
srv_node host (target, port) = host.join_host_port (trim_right target b'.') (itoa port)

-- `getBackendNodesFromSRV`
unfoldable pub get_backend_nodes_from_srv : Host → Text → Result (List Text)
get_backend_nodes_from_srv host srv_record = do
  addrs ← host.lookup_srv srv_record
  ok (map (srv_node host) addrs)

-- The record of the domain, where no record is given.
unfoldable pub name_record : Settings → Settings
name_record c =
    if not (same c.srv_domain []) && same c.srv_record []
    then record c {
      srv_record = codes "_" ++ (c.backend ++ (codes "._tcp." ++ (c.srv_domain ++ codes ".")));
    }
    else c

-- The addresses of etcd are URLs.
unfoldable pub with_scheme : Settings → List Text → List Text
with_scheme c nodes =
    if same c.backend (codes "etcd") then map (λ v. c.scheme ++ (codes "://" ++ v)) nodes else nodes

unfoldable pub use_record : Host → Settings → Result Settings
use_record host c =
    if not (same c.backend (codes "env")) && not (same c.srv_record [])
    then (do
      nodes ←
          map_error (λ e. codes "Cannot get nodes from SRV records " ++ e)
            (get_backend_nodes_from_srv host c.srv_record)
      ok (record c { backend_nodes = with_scheme c nodes }))
    else ok c

-- Where etcd is looked for if nothing tells.
pub etcd_nodes : Text → List Text
etcd_nodes [] = codes "http://127.0.0.1:2379" ∷ []
etcd_nodes (c ∷ peerstr) = split (c ∷ peerstr) b','

unfoldable pub default_nodes : Host → Text → List Text
default_nodes host backend =
    if same backend (codes "consul")
    then codes "127.0.0.1:8500" ∷ []
    else if same backend (codes "etcd")
    then etcd_nodes (host.getenv (codes "ETCDCTL_PEERS"))
    else if same backend (codes "redis")
    then codes "127.0.0.1:6379" ∷ []
    else if same backend (codes "vault")
    then codes "http://127.0.0.1:8200" ∷ []
    else if same backend (codes "zookeeper")
    then codes "127.0.0.1:2181" ∷ []
    else []

unfoldable pub nodes_or : List Text → List Text → List Text
nodes_or given [] = given
nodes_or given (node ∷ nodes) = node ∷ nodes

unfoldable pub fill_nodes : Host → Settings → Settings
fill_nodes host c = record c {
  backend_nodes = nodes_or (default_nodes host c.backend) c.backend_nodes;
}

-- The backends that cannot be watched.
unfoldable pub is_unsupported : Text → Bool
is_unsupported backend = same backend (codes "dynamodb") || same backend (codes "ssm")

unfoldable pub check_settings : Settings → Outcome
check_settings c =
    if c.watch && is_unsupported c.backend
    then exits
    else if same c.backend (codes "dynamodb") && same c.table []
    then failed (codes "No DynamoDB table configured")
    else if same c.backend []
    then exits
    else ready (record c {
      config_dir = path_join (c.conf_dir ∷ codes "conf.d" ∷ []);
      template_dir = path_join (c.conf_dir ∷ codes "templates" ∷ []);
    })

unfoldable pub finish : Host → Result Settings → Outcome
finish host (err e) = failed e
finish host (ok c) = check_settings (fill_nodes host c)

-- `log.SetLevel` ends the program at a level that is not known.
unfoldable pub bad_level : Host → Settings → Bool
bad_level host c = is_set c.log_level && not (host.is_level c.log_level)

unfoldable pub configure : Host → Settings → Outcome
configure host c = if bad_level host c then exits else finish host (use_record host (name_record c))

unfoldable pub configure_loaded : Host → Result Settings → Outcome
configure_loaded host (err e) = failed e
configure_loaded host (ok c) = configure host (process_env host c)

-- `initConfig`, at the settings that the flags left.
unfoldable pub init_config : Host → Settings → Outcome
init_config host c = configure_loaded host (load_file host c)
