-- ===== src/Backends/Consul/Connect.antt =====
-- `New`: the configuration that the client of Consul is created with.
use confd.Prelude.{Bool, ◌&&◌, Option, some, List, [], ◌∷◌, if◌then◌else◌}
use confd.Std.Text.{Text, is_set}
use confd.Std.Result.{Result}

-- The fields of `api.Config` that are set, which start from the defaults of the library.
pub record Config : Type 0 where
  pub scheme : Text
  pub address : Text
  pub http_auth : Option (Text × Text)
  pub cert_file : Text
  pub key_file : Text
  pub ca_file : Text

unfoldable pub first_or : Text → List Text → Text
first_or default_address [] = default_address
first_or default_address (node ∷ nodes) = node

unfoldable pub new_config :
    Config → List Text → Text → Text → Text → Text → Bool → Text → Text → Config
new_config defaults nodes scheme cert key ca_cert basic_auth username password = record {
  scheme = scheme;
  address = first_or defaults.address nodes;
  http_auth = if basic_auth then some (username, password) else defaults.http_auth;
  cert_file = if is_set cert && is_set key then cert else defaults.cert_file;
  key_file = if is_set cert && is_set key then key else defaults.key_file;
  ca_file = if is_set ca_cert then ca_cert else defaults.ca_file;
}

-- `New`, given `api.DefaultConfig` and `api.NewClient`.
unfoldable pub new_consul_client :
    {C : Type 0}
    → Config
    → (Config → Result C)
    → List Text
    → Text
    → Text
    → Text
    → Text
    → Bool
    → Text
    → Text
    → Result C
new_consul_client defaults create nodes scheme cert key ca_cert basic_auth username password =
    create (new_config defaults nodes scheme cert key ca_cert basic_auth username password)
