-- ===== src/Backends/Choice.antt =====
-- pkg/backends/client.go and config.go: which backend `New` creates, and with what.
use confd.Prelude.{Bool, Option, none, some, List, [], ◌∷◌, if◌then◌else◌}
use confd.Std.Text.{Text, codes, same}
use confd.Std.Result.{Result, ok, err}
use confd.Std.Dict.{Dict}

-- `Config`
pub record Config : Type 0 where
  pub auth_token : Text
  pub auth_type : Text
  pub backend : Text
  pub basic_auth : Bool
  pub client_ca_keys : Text
  pub client_cert : Text
  pub client_key : Text
  pub client_insecure : Bool
  pub backend_nodes : List Text
  pub password : Text
  pub scheme : Text
  pub table : Text
  pub separator : Text
  pub username : Text
  pub app_id : Text
  pub user_id : Text
  pub role_id : Text
  pub secret_id : Text
  pub yaml_file : List Text
  pub filter : Text
  pub path : Text
  pub role : Text

-- The constructor of a client that is called, with its arguments.
pub data Client : Type 0 where
  consul : List Text → Text → Text → Text → Text → Bool → Text → Text → Client
  etcd : List Text → Text → Text → Text → Bool → Bool → Text → Text → Client
  zookeeper : List Text → Client
  redis : List Text → Text → Text → Client
  env : Client
  file : List Text → Text → Client
  vault : Text → Text → Dict Text → Client
  dynamodb : Text → Client
  ssm : Client

-- What `New` makes of the constructors.
abbrev pub vault_config : Config → Dict Text
vault_config c =
    (codes "app-id", c.app_id)
    ∷ (codes "user-id", c.user_id)
    ∷ (codes "role-id", c.role_id)
    ∷ (codes "secret-id", c.secret_id)
    ∷ (codes "username", c.username)
    ∷ (codes "password", c.password)
    ∷ (codes "token", c.auth_token)
    ∷ (codes "cert", c.client_cert)
    ∷ (codes "key", c.client_key)
    ∷ (codes "caCert", c.client_ca_keys)
    ∷ (codes "path", c.path)
    ∷ []

-- `backendNodes[0]`, which panics where there is no node.
unfoldable pub new_vault : Config → List Text → Option (Result Client)
new_vault c [] = none
new_vault c (node ∷ nodes) = some (ok (vault node c.auth_type (vault_config c)))

-- The backend that is meant, etcd where none is named.
unfoldable pub backend_or_etcd : Text → Text
backend_or_etcd [] = codes "etcd"
backend_or_etcd (c ∷ backend) = c ∷ backend

unfoldable pub new_named : Config → Text → Option (Result Client)
new_named c backend =
    if same backend (codes "consul")
    then some (
        ok (
          consul c.backend_nodes c.scheme c.client_cert c.client_key c.client_ca_keys c.basic_auth
            c.username c.password))
    else if same backend (codes "etcd")
    then some (
        ok (
          etcd c.backend_nodes c.client_cert c.client_key c.client_ca_keys c.client_insecure
            c.basic_auth c.username c.password))
    else if same backend (codes "zookeeper")
    then some (ok (zookeeper c.backend_nodes))
    else if same backend (codes "redis")
    then some (ok (redis c.backend_nodes c.client_key c.separator))
    else if same backend (codes "env")
    then some (ok env)
    else if same backend (codes "file")
    then some (ok (file c.yaml_file c.filter))
    else if same backend (codes "vault")
    then new_vault c c.backend_nodes
    else if same backend (codes "dynamodb")
    then some (ok (dynamodb c.table))
    else if same backend (codes "ssm")
    then some (ok ssm)
    else some (err (codes "Invalid backend"))

-- `New`; `none` is a panic.
unfoldable pub new_client : Config → Option (Result Client)
new_client c = new_named c (backend_or_etcd c.backend)
