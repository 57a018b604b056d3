-- ===== src/Backends/Consul.antt =====
-- pkg/backends/consul/client.go: `GetValues` and `WatchPrefix` over the answers of the key-value
-- endpoint.
pub mod Connect
use confd.Prelude.{ℕ, List, [], ◌∷◌}
use confd.Std.Text.{Text, trim_prefix}
use confd.Std.Path.{slash, path_join}
use confd.Std.Dict.{Dict, insert}
use confd.Std.Result.{Result, ok, err, ◌>>=◌}

-- `client.List(key, nil)`: the pairs under a key.
abbrev pub Listing : Type 0
Listing = Text → Result (List (Text × Text))

-- The loop over the pairs.
unfoldable pub add_pairs : List (Text × Text) → Dict Text → Dict Text
add_pairs [] vars = vars
add_pairs ((k, v) ∷ pairs) vars =
    add_pairs pairs (insert (path_join ((slash ∷ []) ∷ k ∷ [])) v vars)

unfoldable pub get_values_from : Listing → List Text → Dict Text → Result (Dict Text)
get_values_from list [] vars = ok vars
get_values_from list (key ∷ keys) vars = do
  pairs ← list (trim_prefix key (slash ∷ []))
  get_values_from list keys (add_pairs pairs vars)

-- `GetValues`
unfoldable pub get_values : Listing → List Text → Result (Dict Text)
get_values list keys = get_values_from list keys []

-- What `select` receives first: the stop channel's value, or the answer of the blocking query,
-- which is its last index or an error.
pub data Received : Type 0 where
  stopped : Received
  answered : Result ℕ → Received

-- `WatchPrefix`: the index and the error that it returns.
unfoldable pub watch_prefix : ℕ → Received → Result ℕ
watch_prefix wait_index stopped = ok wait_index
watch_prefix wait_index (answered (ok last_index)) = ok last_index
watch_prefix wait_index (answered (err e)) = err e
