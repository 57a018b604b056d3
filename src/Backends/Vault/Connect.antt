-- ===== src/Backends/Vault/Connect.antt =====
-- `getConfig` and `New`.
use confd.Prelude.{Option, none, some, if◌then◌else◌}
use confd.Std.Text.{Text, codes, is_set}
use confd.Std.Result.{Result, ok, err, ◌>>=◌, ◌>>◌}
use confd.Std.Dict.{Dict}
use confd.Backends.Tls.{Certificates, own_pair}
use confd.Backends.Vault.Login.{Api, value_of, authenticate}

module _ (X : Certificates) where
  -- What `getConfig` sets of the configuration of the client of Vault.
  pub record Config : Type 0 where
    pub address : Text
    pub certificate : Option X.Pair
    pub root_cas : Option X.Pool

  -- The pool is set even where the file has no certificate.
  unfoldable pub root_pool : Text → Result (Option X.Pool)
  root_pool ca_cert =
      if is_set ca_cert then (do ca ← X.read_file ca_cert; ok (some (X.pool_of ca))) else ok none

  -- `getConfig`
  unfoldable pub get_config : Text → Text → Text → Text → Result Config
  get_config address cert key ca_cert = do
    certificate ← own_pair X cert key
    root_cas ← root_pool ca_cert
    ok (record { address = address; certificate = certificate; root_cas = root_cas })

  module _ {S : Type 0} (api : Api S) (new_client : Config → Result S) where
    -- Logs in on the client, and returns it as the log-in left it.
    unfoldable pub log_in : Text → Dict Text → S → Result S
    log_in auth_type params s = let (r, s') = authenticate api auth_type params s in do r; ok s'

    -- `New`
    unfoldable pub new_vault_client : Text → Text → Dict Text → Result S
    new_vault_client address auth_type params =
        if is_set auth_type
        then (do
          conf ←
              get_config address (value_of (codes "cert") params) (value_of (codes "key") params)
                (value_of (codes "caCert") params)
          c ← new_client conf
          log_in auth_type params c)
        else err (codes "you have to set the auth type when using the vault backend")
