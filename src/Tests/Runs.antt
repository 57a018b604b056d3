-- ===== src/Tests/Runs.antt =====
-- Runs of the definitions that no theorem is tried at.
use confd.Prelude.{ℕ, ◌≡◌, refl, true, false, none, some, List, [], ◌∷◌}
use confd.Std.Text.{codes, text_dec, has_prefix, trim_prefix, index, replace_all}
use confd.Std.Dict.{insert}
use confd.Std.Strconv.{atoi}
use confd.Std.Net.{to_4}
use confd.Std.Int.{ℤ}
use confd.Backends.Redis
use confd.Backends.Redis.{Server, returns, panics}
use confd.Backends.Redis.Connect
use confd.Backends.Redis.Connect.{Net, Target, target_of}
use confd.Backends.Zookeeper.Watch
use confd.Backends.Zookeeper.Watch.{
  Event, key_event, child_event, cancelled, node_data_changed, node_children_changed, other_type,
}
use confd.Template.Functions.Reversal.{reverse_values, reverse_from, swap, swap_items, set_elem}
use confd.Template.Functions.Sequence.{seq, seq_from}
use confd.Template.Functions.Network.{first_form}

-- A string, a hash with one field, and a key that is missing, with one key below it.
server : Server
server = record {
  type_of = λ k. elim (has_prefix k (codes "s")) [
    | true ↦ Redis.ok (codes "string")
    | false ↦ elim (has_prefix k (codes "h")) [
      | true ↦ Redis.ok (codes "hash")
      | false ↦ Redis.ok (codes "none")
    ]
  ];
  get = λ k. Redis.ok (codes "v");
  hscan = λ k idx. Redis.ok (record { cursor = 0; items = codes "f" ∷ codes "w" ∷ [] });
  scan = λ idx pattern. Redis.ok (record { cursor = 0; items = codes "m:k" ∷ [] });
}

redis_values :
    Redis.get_values server 1 (codes ":") (codes "/s" ∷ codes "/h" ∷ codes "/m/*" ∷ [])
    ≡ returns ((codes "/s", codes "v") ∷ (codes "/h/f", codes "w") ∷ (codes "/m/k", codes "v") ∷ [])
unfolding server Redis.get_values Redis.read_keys Redis.read_key Redis.read_typed Redis.transform
    Redis.clean Redis.read_string Redis.scan_loop Redis.add_fields Redis.add_keys Redis.add_value
    Redis.pattern_below text_dec has_prefix trim_prefix replace_all insert
redis_values = refl

database_split : target_of (codes "host:1/3") ≡ record { address = codes "host:1"; db = ℤ.pos 3 }
unfolding target_of Connect.split_database index has_prefix atoi
database_split = refl

counted : seq 5 3 5 ≡ some (3 ∷ 4 ∷ 5 ∷ [])
unfolding seq seq_from
counted = refl

abbrev four : List ℕ
four = 1 ∷ 2 ∷ 3 ∷ 4 ∷ []

turned : reverse_values four ≡ 4 ∷ 3 ∷ 2 ∷ 1 ∷ []
unfolding reverse_values reverse_from swap swap_items set_elem
turned = refl

-- An interface that has an IPv6 address and then an IPv4 address.
abbrev addresses : List (List ℕ)
addresses =
    (254 ∷ 128 ∷ 0 ∷ 0 ∷ 0 ∷ 0 ∷ 0 ∷ 0 ∷ 0 ∷ 0 ∷ 0 ∷ 0 ∷ 0 ∷ 0 ∷ 0 ∷ 1 ∷ [])
    ∷ (10 ∷ 0 ∷ 0 ∷ 1 ∷ [])
    ∷ []

fourth_form : first_form to_4 addresses ≡ some (10 ∷ 0 ∷ 0 ∷ 1 ∷ [])
unfolding first_form to_4 has_prefix
fourth_form = refl

abbrev received : List Event
received =
    key_event other_type none
    ∷ child_event node_children_changed none
    ∷ cancelled
    ∷ key_event node_data_changed none
    ∷ []

watch_responds :
    Watch.watch (some (codes "no node")) none received
    ≡ record { wait_index = 0; error = some (codes "no node") }
      ∷ record { wait_index = 1; error = none }
      ∷ []
unfolding Watch.watch Watch.refused Watch.watch_loop Watch.responses_to
watch_responds = refl
