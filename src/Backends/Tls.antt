-- ===== src/Backends/Tls.antt =====
-- What the backends use of crypto/tls and crypto/x509, and of the file system for it.
use confd.Prelude.{Bool, ◌&&◌, Option, none, some, if◌then◌else◌}
use confd.Std.Text.{Text, is_set}
use confd.Std.Result.{Result, ok, ◌>>=◌}

-- The contents of a file, `tls.LoadX509KeyPair`, a new pool with the certificates of a PEM text,
-- and whether `AppendCertsFromPEM` found one there.
pub record Certificates : Type 1 where
  pub Pair : Type 0
  pub Pool : Type 0
  pub read_file : Text → Result Text
  pub load_pair : Text → Text → Result Pair
  pub pool_of : Text → Pool
  pub has_certificate : Text → Bool

module _ (X : Certificates) where
  -- The pair of a certificate and its key, where both are given.
  unfoldable pub own_pair : Text → Text → Result (Option X.Pair)
  own_pair cert key =
      if is_set cert && is_set key
      then (do pair ← X.load_pair cert key; ok (some pair))
      else ok none
