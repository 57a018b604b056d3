-- ===== src/Backends/Etcd/Connect.antt =====
-- `NewEtcdClient`: the configuration that the client of etcd is created with.
use confd.Prelude.{ℕ, Bool, ◌||◌, ◌&&◌, Option, none, some, List, [], if◌then◌else◌}
use confd.Std.Text.{Text, is_set}
use confd.Std.Result.{Result, ok, ◌>>=◌}
use confd.Backends.Tls.{Certificates, own_pair}

-- The arguments of `NewEtcdClient`.
pub record Options : Type 0 where
  pub machines : List Text
  pub cert : Text
  pub key : Text
  pub ca_cert : Text
  pub client_insecure : Bool
  pub basic_auth : Bool
  pub username : Text
  pub password : Text

module _ (X : Certificates) where
  pub record TlsConfig : Type 0 where
    pub insecure_skip_verify : Bool
    pub root_cas : Option X.Pool
    pub certificate : Option X.Pair

  -- `clientv3.Config`, times in seconds.
  pub record Config : Type 0 where
    pub endpoints : List Text
    pub dial_timeout : ℕ
    pub dial_keep_alive_time : ℕ
    pub dial_keep_alive_timeout : ℕ
    pub username : Text
    pub password : Text
    pub tls : Option TlsConfig

  -- The pool of the file with the authorities, if it has a certificate.
  unfoldable pub root_pool : Text → Result (Option X.Pool)
  root_pool ca_cert =
      if is_set ca_cert
      then (do
        bytes ← X.read_file ca_cert
        ok (if X.has_certificate bytes then some (X.pool_of bytes) else none))
      else ok none

  -- TLS is used where a file of authorities or a pair is given.
  unfoldable pub tls_enabled : Options → Bool
  tls_enabled o = is_set o.ca_cert || (is_set o.cert && is_set o.key)

  unfoldable pub new_config : Options → Result Config
  new_config o = do
    root_cas ← root_pool o.ca_cert
    certificate ← own_pair X o.cert o.key
    ok (record {
      endpoints = o.machines;
      dial_timeout = 5;
      dial_keep_alive_time = 10;
      dial_keep_alive_timeout = 3;
      username = if o.basic_auth then o.username else [];
      password = if o.basic_auth then o.password else [];
      tls =
          if tls_enabled o
          then some (record {
            insecure_skip_verify = o.client_insecure;
            root_cas = root_cas;
            certificate = certificate;
          })
          else none;
    })

  -- `NewEtcdClient`, given `clientv3.New`.
  unfoldable pub new_etcd_client : {C : Type 0} → (Config → Result C) → Options → Result C
  new_etcd_client create o = do config ← new_config o; create config
