-- ===== src/Backends/Ssm/Connect.antt =====
-- `New`: the region and the endpoint of the session.
use confd.Prelude.{Option, none, some, if◌then◌else◌}
use confd.Std.Text.{Text, codes, is_set}
use confd.Std.Result.{Result, ok, ◌>>◌}

-- The environment, the region that the metadata of the machine tells (empty where it tells none),
-- a session of a region, its credentials, and the client of a session and an endpoint.
pub record Aws (Session Client : Type 0) : Type 0 where
  pub getenv : Text → Text
  pub metadata_region : Text
  pub session_of : Text → Session
  pub credentials : Session → Result (Unit {0})
  pub client_of : Session → Option Text → Client

module _ {Session Client : Type 0} (aws : Aws Session Client) where
  unfoldable pub region : Text
  region =
      if is_set (aws.getenv (codes "AWS_REGION"))
      then aws.getenv (codes "AWS_REGION")
      else aws.metadata_region

  unfoldable pub endpoint : Option Text
  endpoint =
      if is_set (aws.getenv (codes "SSM_LOCAL"))
      then some (aws.getenv (codes "SSM_ENDPOINT_URL"))
      else none

  -- `New`
  unfoldable pub new_ssm_client : Result Client
  new_ssm_client = do
    aws.credentials (aws.session_of region)
    ok (aws.client_of (aws.session_of region) endpoint)
