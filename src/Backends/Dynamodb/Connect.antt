-- ===== src/Backends/Dynamodb/Connect.antt =====
-- `NewDynamoDBClient`.
use confd.Prelude.{Option, none, some, if◌then◌else◌}
use confd.Std.Text.{Text, codes, is_set}
use confd.Std.Result.{Result, ok, ◌>>◌}

-- The environment, a session with an endpoint, its credentials, the client of a session, and the
-- description of a table.
pub record Aws (Session Client : Type 0) : Type 0 where
  pub getenv : Text → Text
  pub session_of : Option Text → Session
  pub credentials : Session → Result (Unit {0})
  pub client_of : Session → Client
  pub describe_table : Client → Text → Result (Unit {0})

module _ {Session Client : Type 0} (aws : Aws Session Client) where
  unfoldable pub endpoint : Option Text
  endpoint =
      if is_set (aws.getenv (codes "DYNAMODB_LOCAL"))
      then some (aws.getenv (codes "DYNAMODB_ENDPOINT_URL"))
      else none

  -- `NewDynamoDBClient`: without credentials, or where the table cannot be described, there is no
  -- client.
  unfoldable pub new_dynamodb_client : Text → Result (Client × Text)
  new_dynamodb_client table = do
    aws.credentials (aws.session_of endpoint)
    aws.describe_table (aws.client_of (aws.session_of endpoint)) table
    ok (aws.client_of (aws.session_of endpoint), table)
