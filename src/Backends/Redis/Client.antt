-- ===== src/Backends/Redis/Client.antt =====
-- pkg/backends/redis/client.go: `NewRedisClient`, and `GetValues` on the connection that it keeps.
use confd.Prelude.{true, Option, none, some, List, [], ◌∷◌, ℕ}
use confd.Std.Text.{Text}
use confd.Std.Result.{Error, Result, ok, err}
use confd.Std.Int.{ℤ}
use confd.Std.Dict.{Dict}
use confd.Backends.Redis.{
  Server, Call, returns, fails, panics, unfinished, separator_or_slash, get_values,
}
use confd.Backends.Redis.Connect.{Net, try_connect, connected_client}

-- `Client`, without its subscription.
pub record Client (Conn : Type 0) : Type 0 where
  pub connection : Option Conn
  pub machines : List Text
  pub password : Text
  pub separator : Text

module _ {Conn : Type 0} (net : Net Conn) where
  abbrev connection_of : Result (Option (Conn × ℤ)) → Option Conn
  connection_of (ok (some (conn, db))) = some conn
  connection_of _ = none

  abbrev error_of : Result (Option (Conn × ℤ)) → Option Error
  error_of (err e) = some e
  error_of (ok made) = none

  -- `NewRedisClient`: the client comes with the error of its connection, if there was one.
  unfoldable pub new_redis_client : List Text → Text → Text → Client Conn × Option Error
  new_redis_client machines password separator =
      let tried = try_connect net machines password true in
      (
        record {
          connection = connection_of tried;
          machines = machines;
          password = password;
          separator = separator_or_slash separator;
        },
        error_of tried,
      )

  module _ (server_of : Conn → Server) where
    -- Without a connection the first command panics.
    unfoldable pub values_on : ℕ → Text → List Text → Option Conn → Call (Dict Text)
    values_on parts separator [] none = returns []
    values_on parts separator (key ∷ keys) none = panics
    values_on parts separator keys (some conn) = get_values (server_of conn) parts separator keys

    -- The result, and the connection that is kept.
    unfoldable pub values_with :
        ℕ → Client Conn → List Text → Call (Option Conn) → Call (Dict Text) × Client Conn
    values_with parts client keys (returns connection) = (
      values_on parts client.separator keys connection,
      record client { connection = connection },
    )
    values_with parts client keys (fails e) = (fails e, record client { connection = none })
    values_with parts client keys panics = (panics, client)
    values_with parts client keys unfinished = (unfinished, client)

    -- `GetValues`
    unfoldable pub client_values : ℕ → Client Conn → List Text → Call (Dict Text) × Client Conn
    client_values parts client keys =
        values_with parts client keys
          (connected_client net client.machines client.password client.connection)
