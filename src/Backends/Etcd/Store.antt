-- ===== src/Backends/Etcd/Store.antt =====
-- From etcd to the store of a template.
pub mod Found
use confd.Prelude.{ℕ, ◌≤◌, ◌≡◌, ap, ◌∙◌, List, [], ◌∷◌, ◌++◌, Bool-cases, inl, inr, true, some}
use confd.Std.Text.{Text}
use confd.Std.Dict.{Dict, lookup, NodupKeys, insert-NodupKeys}
use confd.Std.Path.Canonical.{Names, root_path}
use confd.Util.{append_prefix}
use confd.Platform.{Platform}
use confd.Platform.Laws.{StoreModel}
use confd.Template.Resource.{World}
use confd.Template.Resource.Vars.{set_vars}
use confd.Template.Resource.Vars.Contents.{KeysUnder, set_vars-get}
use confd.Backends.Etcd.{Txn, Pairs, take_pairs, under_key, get_values}
use confd.Backends.Etcd.Snapshot.{Server, Serves, read_at}
use confd.Backends.Etcd.Watch.{Response, Watch}
use confd.Backends.Etcd.Fresh.{is_among, Waits, AllTold, get_values-waiting}
use confd.Backends.Etcd.Store.Found.{has_pair, IsAtOrUnder, AllAgree, read_at-finds}

take_pairs-NodupKeys :
    (key : Text) (kvs : Pairs) (vars : Dict Text)
    → NodupKeys vars
    → NodupKeys (take_pairs key kvs vars)
unfolding take_pairs
take_pairs-NodupKeys key [] vars u = u
take_pairs-NodupKeys key ((k, v) ∷ kvs) vars u =
    take_pairs-NodupKeys key kvs _ (elim (Bool-cases (under_key key k)) [
      | inl e ↦ rw e (insert-NodupKeys k v vars u)
      | inr e ↦ rw e u
    ])

read_at-NodupKeys :
    (server : Server) (rev : ℕ) (keys : List Text) (vars : Dict Text)
    → NodupKeys vars
    → NodupKeys (read_at server rev keys vars)
read_at-NodupKeys server rev [] vars u = u
read_at-NodupKeys server rev (key ∷ keys) vars u =
    read_at-NodupKeys server rev keys _ (take_pairs-NodupKeys key (server.at rev key) vars u)

module _ (P : Platform) (M : StoreModel P) (server : Server) (txn : Txn)
    (serves : Serves server txn) where
  -- The keys that a resource asks its backend for.
  abbrev pub asked : World P → List Text
  asked w = append_prefix w.resource.prefix w.resource.keys

  -- What a template finds is what reading the resource's keys at the server's latest revision gives.
  set_vars-read_at :
      (w : World P) (ps ks : List Text) (s : P.State) (wait_index now : ℕ)
      (arrivals : Text → List Response) (watches : Dict Watch)
      → w.resource.prefix ≡ root_path ps
      → Names ps
      → Names ks
      → w.resource.store_client.get_values (asked w) w.outside ≡ (get_values txn (asked w), s)
      → KeysUnder ps (read_at server now (asked w) [])
      → wait_index ≤ server.head 0
      → server.head 0 ≤ now
      → AllTold server now (asked w) arrivals watches
      → Waits (asked w) wait_index arrivals watches
      → P.store_get (root_path ks) (set_vars P w).1.resource.store
        ≡ lookup (root_path (ps ++ ks)) (read_at server now (asked w) [])
  set_vars-read_at w ps ks s wait_index now arrivals watches e hp hk asks under h g told waits =
      let current =
        get_values-waiting server txn serves (asked w) wait_index now arrivals watches h g told
          waits in
      set_vars-get P M w ps ks (read_at server now (asked w) []) s e hp hk
        (asks ∙ ap (λ r. (r, s)) current) under (read_at-NodupKeys server now (asked w) [] tt)

  -- A resource whose backend is etcd, with a prefix that is a clean path, asks for its keys, each
  -- with the prefix in front. The server now has a value for the prefix and a name, at or under one
  -- of these keys, and no other value for it under any of them. After `setVars`, for as long as the
  -- next `WatchPrefix` waits, a template finds that value under the name. The names that the server
  -- has at or under the keys are clean paths under the prefix; each change is told to the watch of
  -- its key; and the server's revision was at least the index of the last answer, and not beyond
  -- the one of now, when the values were read.
  pub set_vars-waiting :
      (w : World P) (ps ks : List Text) (s : P.State) (wait_index now : ℕ)
      (arrivals : Text → List Response) (watches : Dict Watch) (key v : Text)
      → w.resource.prefix ≡ root_path ps
      → Names ps
      → Names ks
      → w.resource.store_client.get_values (asked w) w.outside ≡ (get_values txn (asked w), s)
      → KeysUnder ps (read_at server now (asked w) [])
      → wait_index ≤ server.head 0
      → server.head 0 ≤ now
      → AllTold server now (asked w) arrivals watches
      → Waits (asked w) wait_index arrivals watches
      → is_among key (asked w) ≡ true
      → IsAtOrUnder key (root_path (ps ++ ks))
      → has_pair (root_path (ps ++ ks)) v (server.at now key) ≡ true
      → AllAgree (root_path (ps ++ ks)) v server now (asked w)
      → P.store_get (root_path ks) (set_vars P w).1.resource.store ≡ some v
  set_vars-waiting w ps ks s wait_index now arrivals watches key v e hp hk asks under h g told waits
        m u there agree =
      set_vars-read_at w ps ks s wait_index now arrivals watches e hp hk asks under h g told waits
      ∙ read_at-finds (root_path (ps ++ ks)) v server now (asked w) [] key agree m u there
