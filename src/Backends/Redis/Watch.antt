-- ===== src/Backends/Redis/Watch.antt =====
-- pkg/backends/redis/client.go: `WatchPrefix`, over what the subscription receives.
use confd.Prelude.{
  ℕ, zero, suc, Option, none, some, List, [], ◌∷◌, ◌++◌, exists, if◌then◌else◌, ◌==◌,
}
use confd.Std.Text.{Text, codes, same}
use confd.Std.Result.{Error, Result, ok, err}
use confd.Std.Int.{ℤ}
use confd.Std.Strconv.{itoa_ℤ}
use confd.Backends.Redis.{transform}

-- The commands whose keyspace event counts as a change.
abbrev pub commands : List Text
commands =
    codes "del"
    ∷ codes "append"
    ∷ codes "rename_from"
    ∷ codes "rename_to"
    ∷ codes "expire"
    ∷ codes "set"
    ∷ codes "incrby"
    ∷ codes "incrbyfloat"
    ∷ codes "hset"
    ∷ codes "hincrby"
    ∷ codes "hincrbyfloat"
    ∷ codes "hdel"
    ∷ []

-- The pattern that is subscribed to.
unfoldable pub subscription : Text → ℤ → Text → Text
subscription separator db prefix =
    codes "__keyspace@" ++ (itoa_ℤ db ++ (codes "__:" ++ (transform separator prefix ++ codes "*")))

-- What `Receive` returns: the data of a message, the number of subscriptions after a change of
-- them, or an error. The stop channel stands among them.
pub data Event : Type 0 where
  message : Text → Event
  subscribed : ℕ → Event
  failure : Error → Event
  stopped : Event

-- The response to an event, if it has one. A stop answers with the index that was waited from.
unfoldable pub response_to : ℕ → Event → Option (Result ℕ)
response_to wait_index (message data') =
    if exists (λ command. same command data') commands then some (ok 1) else none
response_to wait_index (subscribed count) = if count == 0 then some (ok 0) else none
response_to wait_index (failure e) = some (err e)
response_to wait_index stopped = some (ok wait_index)

unfoldable pub first_response : ℕ → List Event → Option (Result ℕ)
first_response wait_index [] = none
first_response wait_index (event ∷ events) = elim (response_to wait_index event) [
  | none ↦ first_response wait_index events
  | some r ↦ some r
]

-- `WatchPrefix`, given the error of the connection for the subscription, if there was one.
unfoldable pub watch_prefix : ℕ → Option Error → List Event → Option (Result ℕ)
watch_prefix zero refused events = some (ok 1)
watch_prefix (suc n) (some e) events = some (err e)
watch_prefix (suc n) none events = first_response (suc n) events
