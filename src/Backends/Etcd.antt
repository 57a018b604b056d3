-- ===== src/Backends/Etcd.antt =====
-- pkg/backends/etcd/client.go: `GetValues` over the transactions of the etcd client, and the
-- revision that a `Watch` keeps.
pub mod Snapshot
pub mod Fresh
pub mod Reconnect
pub mod Store
pub mod Watch
pub mod Prefix
pub mod Connect
use confd.Prelude.{
  ℕ, zero, suc, ◌+◌, ◌≡◌, refl, Bool, true, false, ◌||◌, Option, none, some, List, [], ◌∷◌, ◌++◌,
  leb, ltb, ◌==◌, length, if◌then◌else◌,
}
use confd.Std.Text.{Text, same, has_prefix, has_suffix}
use confd.Std.Path.{slash}
use confd.Std.Dict.{Dict, insert}
use confd.Std.Result.{Result, ok, err, ◌>>=◌}

-- The key-value pairs of one range response.
abbrev pub Pairs : Type 0
Pairs = List (Text × Text)

-- The answer to a transaction of gets: the revision of its header, and a response for each get.
pub record TxnResult : Type 0 where
  pub revision : ℕ
  pub responses : List Pairs

-- What the etcd client answers to a transaction of prefix gets at a revision (0 for the latest);
-- the first argument counts the transactions before it.
abbrev pub Txn : Type 0
Txn = ℕ → List Text → ℕ → Result TxnResult

abbrev pub max_txn_ops : ℕ
max_txn_ops = 128

-- The key with a slash behind it, unless there is one.
unfoldable pub fixed_key : Text → Text
fixed_key key = if has_suffix key (slash ∷ []) then key else key ++ slash ∷ []

-- `k == originKey || strings.HasPrefix(k, originKeyFixed)`
unfoldable pub under_key : Text → Text → Bool
under_key key k = same k key || has_prefix k (fixed_key key)

-- The pairs of one response that lie at the key or under it.
unfoldable pub take_pairs : Text → Pairs → Dict Text → Dict Text
take_pairs key [] vars = vars
take_pairs key ((k, v) ∷ kvs) vars =
    take_pairs key kvs (if under_key key k then insert k v vars else vars)

-- The loop over the responses. etcd gives one for each get.
pub take_responses : List Text → List Pairs → Dict Text → Dict Text
take_responses (key ∷ ops) (kvs ∷ responses) vars =
    take_responses ops responses (take_pairs key kvs vars)
take_responses [] responses vars = vars
take_responses (key ∷ ops) [] vars = vars

-- What `GetValues` keeps between two transactions.
pub record Reading : Type 0 where
  pub sent : ℕ
  pub first_rev : ℕ
  pub vars : Dict Text

pub finish_txn : Reading → List Text → TxnResult → Reading
finish_txn r ops result = record {
  sent = r.sent + 1;
  first_rev = if r.first_rev == 0 then result.revision else r.first_rev;
  vars = take_responses ops result.responses r.vars;
}

-- `doTxn`
pub do_txn : Txn → List Text → Reading → Result Reading
do_txn txn ops r = do result ← txn r.sent ops r.first_rev; ok (finish_txn r ops result)

-- The last transaction, for the keys that are left.
pub flush : Txn → List Text → Reading → Result Reading
flush txn [] r = ok r
flush txn (op ∷ ops) r = do_txn txn (op ∷ ops) r

-- The loop over the keys, with the gets that wait to be sent.
pub read_keys : Txn → List Text → List Text → Reading → Result Reading
read_keys txn [] ops r = flush txn ops r
read_keys txn (key ∷ keys) ops r =
    let send = do_txn txn (ops ++ key ∷ []) r >>= read_keys txn keys [] in
    let wait = read_keys txn keys (ops ++ key ∷ []) r in
    if leb max_txn_ops (length (ops ++ key ∷ [])) then send else wait

abbrev pub nothing_read : Reading
nothing_read = record { sent = 0; first_rev = 0; vars = [] }

-- `GetValues`
unfoldable pub get_values : Txn → List Text → Result (Dict Text)
get_values txn keys = do r ← read_keys txn keys [] nothing_read; ok r.vars
