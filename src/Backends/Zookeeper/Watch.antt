-- ===== src/Backends/Zookeeper/Watch.antt =====
-- pkg/backends/zookeeper/client.go: `watch` and `WatchPrefix`.
pub mod Above
use confd.Prelude.{
  ℕ, zero, suc, Bool, true, false, Option, none, some, List, [], ◌∷◌, ◌++◌, map, exists, keep_if,
  if◌then◌else◌,
}
use confd.Std.Text.{Text, same, has_prefix}
use confd.Std.Result.{Error, Result, ok, err}
use confd.Std.Dict.{Dict}
use confd.Std.Path.{slash, path_dir}
use confd.Backends.Zookeeper.{Zk, get_values}

-- `watchResponse`
pub record WatchResponse : Type 0 where
  pub wait_index : ℕ
  pub error : Option Error

-- The type of an event of the server, and what the select of `watch` receives.
pub data EventType : Type 0 where
  node_data_changed node_children_changed other_type : EventType

pub data Event : Type 0 where
  key_event : EventType → Option Error → Event
  child_event : EventType → Option Error → Event
  cancelled : Event

-- The responses to a `GetW` or a `ChildrenW`: an error is sent, and the watch goes on.
unfoldable pub refused : Option Error → List WatchResponse
refused none = []
refused (some e) = record { wait_index = 0; error = some e } ∷ []

unfoldable pub responses_to : Event → List WatchResponse
responses_to (key_event node_data_changed e) = record { wait_index = 1; error = e } ∷ []
responses_to (child_event node_children_changed e) = record { wait_index = 1; error = e } ∷ []
responses_to _ = []

unfoldable pub watch_loop : List Event → List WatchResponse
watch_loop [] = []
watch_loop (cancelled ∷ events) = []
watch_loop (key_event t e ∷ events) = responses_to (key_event t e) ++ watch_loop events
watch_loop (child_event t e ∷ events) = responses_to (child_event t e) ++ watch_loop events

-- `watch`, given the errors of its two requests: the responses in the order in which it sends them.
unfoldable pub watch : Option Error → Option Error → List Event → List WatchResponse
watch key_error child_error events = refused key_error ++ (refused child_error ++ watch_loop events)

abbrev pub root : Text
root = slash ∷ []

-- A value found is watched where one of the keys is its prefix.
unfoldable pub is_asked : List Text → Text → Bool
is_asked keys k = exists (λ v. has_prefix k v) keys

abbrev pub seen : Text → List Text → Bool
seen dir watched = exists (λ d. same d dir) watched

-- A directory that is not in `watchMap` goes into it, and a watch of it starts.
unfoldable pub add_dir : Text → List Text → List Text
add_dir dir watched = if seen dir watched then watched else dir ∷ watched

-- The loop from a directory up to the root, for a number of rounds; `none` where it is not over
-- then.
unfoldable pub add_dirs : ℕ → Text → List Text → Option (List Text)
add_dirs zero dir watched = none
add_dirs (suc rounds) dir watched = elim (same dir root) [
  | true ↦ some watched
  | false ↦ add_dirs rounds (path_dir dir) (add_dir dir watched)
]

-- The loop over the values found: the directories that are watched, the last one first.
unfoldable pub watch_dirs : ℕ → List Text → List Text → List Text → Option (List Text)
watch_dirs rounds keys [] watched = some watched
watch_dirs rounds keys (k ∷ entries) watched = elim (is_asked keys k) [
  | true ↦ elim (add_dirs rounds (path_dir k) watched) [
    | none ↦ none
    | some watched' ↦ watch_dirs rounds keys entries watched'
  ]
  | false ↦ watch_dirs rounds keys entries watched
]

-- What `WatchPrefix` does before it waits: it returns, or it watches directories and keys.
pub data Watching : Type 0 where
  answered : WatchResponse → Watching
  waits : List Text → List Text → Watching
  unfinished : Watching

unfoldable pub watch_entries : ℕ → List Text → Result (Unit {0}) × Dict Text → Watching
watch_entries rounds keys (err e, entries) = answered (record { wait_index = 0; error = some e })
watch_entries rounds keys (ok _, entries) =
    let found = map (λ entry. entry.0) entries in
    elim (watch_dirs rounds keys found []) [
      | none ↦ unfinished
      | some dirs ↦ waits dirs (keep_if (is_asked keys) found)
    ]

unfoldable pub start_watches : Zk → ℕ → ℕ → Text → List Text → ℕ → Watching
start_watches zk depth rounds prefix keys zero = answered (record { wait_index = 1; error = none })
start_watches zk depth rounds prefix keys (suc n) =
    watch_entries rounds keys (get_values zk depth (prefix ∷ []))

-- What the last select receives: a value of `stopChan`, or the response of a watch.
pub data Received : Type 0 where
  stopped : Received
  responded : WatchResponse → Received

unfoldable pub answer : ℕ → Received → WatchResponse
answer wait_index stopped = record { wait_index = wait_index; error = none }
answer wait_index (responded r) = r

-- `WatchPrefix`, given what it receives if it waits.
unfoldable pub watch_prefix : Zk → ℕ → ℕ → Text → List Text → ℕ → Received → Option WatchResponse
watch_prefix zk depth rounds prefix keys wait_index received =
    elim (start_watches zk depth rounds prefix keys wait_index) [
      | answered r ↦ some r
      | waits dirs found ↦ some (answer wait_index received)
      | unfinished ↦ none
    ]
