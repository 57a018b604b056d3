-- ===== src/Tests/Backends.antt =====
-- The backends at small answers.
use confd.Prelude.{◌≡◌, refl, some, List, [], ◌∷◌, map, arith, ◌+◌}
use confd.Std.Text.{
  Text, codes, text_dec, has_prefix, trim_prefix, index, to_upper, to_lower, replace_byte,
}
use confd.Std.Result.{ok}
use confd.Std.Dict.{Dict, lookup, insert}
use confd.Backends.Env
use confd.Backends.Env.{transform, env_map}
use confd.Backends.Etcd
use confd.Backends.Etcd.{Txn, TxnResult}
use confd.Backends.Etcd.Snapshot.{Server, Serves, read_rev, read_at, get_values-Snapshot}

environ : List Text
environ = codes "APP_A=1" ∷ codes "HOME=/root" ∷ []

variables : Dict Text
variables = (codes "APP_A", codes "1") ∷ (codes "HOME", codes "/root") ∷ []

environ_is_read : env_map environ [] ≡ some variables
unfolding environ variables env_map index insert text_dec
environ_is_read = refl

keys : List Text
keys = codes "/app" ∷ []

values : Dict Text
values = (codes "/app/a", codes "1") ∷ []

env_runs : Env.get_values environ keys ≡ some values
unfolding Env.get_values Env.collect_all Env.collect Env.transform Env.clean environ keys values
    env_map index insert text_dec has_prefix trim_prefix to_upper to_lower replace_byte
env_runs = refl

value_found : lookup (codes "/app/a") values ≡ some (codes "1")
unfolding values lookup text_dec
value_found = refl

-- A server that is written to between two transactions.
server : Server
server = record { at = λ rev key. (key, codes "v") ∷ []; head = λ n. n + 5 }

serve : Txn
serve n ops rev = ok (record {
  revision = server.head n;
  responses = map (server.at (read_rev (server.head n) rev)) ops;
})

serve-Serves : Serves server serve
unfolding server serve
serve-Serves = record { head_pos = λ n. omega arith; answers = λ n ops rev. refl }

get_values-Snapshot_example :
    Etcd.get_values serve (codes "/a" ∷ codes "/b" ∷ [])
    ≡ ok (read_at server (server.head 0) (codes "/a" ∷ codes "/b" ∷ []) [])
get_values-Snapshot_example =
    get_values-Snapshot server serve serve-Serves (codes "/a" ∷ codes "/b" ∷ [])
