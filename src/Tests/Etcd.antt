-- ===== src/Tests/Etcd.antt =====
-- Etcd with a key that was written once, and a watch that was told so.
use mathlib.Core.Option.{some-injective}
use mathlib.Core.Path.{subst}
use confd.Prelude.{
  inl, true, false, ◌+◌, ◌≤◌, ◌≡◌, refl, sym, none, some, List, [], ◌∷◌, map, ltb, if◌then◌else◌,
  arith,
}
use confd.Std.Text.{Text, codes, text_dec, same_iff}
use confd.Std.Result.{ok}
use confd.Std.Dict.{lookup, insert}
use confd.Std.Path.{is_dot, is_dot_dot, path_join}
use confd.Std.Path.Canonical.{Names}
use confd.Util.{append_prefix}
use confd.Platform.Memory.{memory}
use confd.Platform.Memory.Lawful.{memory-StoreModel}
use confd.Template.Resource.{World}
use confd.Template.Resource.Vars.{set_vars}
use confd.Template.Resource.Vars.Contents.{KeysUnder}
use confd.Backends.Etcd
use confd.Backends.Etcd.{Txn, take_pairs, under_key}
use confd.Backends.Etcd.Store.{set_vars-waiting}
use confd.Tests.Samples.{disk, app, world}
use confd.Backends.Etcd.Snapshot.{Server, Serves, read_rev, read_at}
use confd.Backends.Etcd.Watch.{Response, new_watch, respond, update, respond_all, wait_next}
use confd.Backends.Etcd.Prefix.{notified, watch_prefix, ensure_watches, answer_of}
use confd.Backends.Etcd.Fresh.{is_among, Waits, AllTold}
use confd.Backends.Etcd.Store.Found.{has_pair, AllAgree}

abbrev written_once : Server
written_once = record {
  at = λ rev key. if ltb rev 5 then [] else (key, codes "v") ∷ [];
  head = λ n. n + 6;
}

abbrev serve : Txn
serve n ops rev =
    ok (record { revision = n + 6; responses = map (written_once.at (read_rev (n + 6) rev)) ops })

serve-Serves : Serves written_once serve
serve-Serves = record { head_pos = λ n. omega arith; answers = λ n ops rev. refl }

abbrev told_five : Text → List Response
told_five key = record { compact = 0; header = 5 } ∷ []

abbrev one_key : List Text
one_key = codes "/p/k" ∷ []

all_told : AllTold written_once 9 one_key told_five []
unfolding respond_all respond update lookup
all_told key w e f r l g =
    let f' : some new_watch ≡ some w = rw e at f in
    let w_new : w ≡ new_watch = sym (some-injective new_watch w f') in
    let l' : (respond_all (told_five key) new_watch).revision ≤ r = rw w_new at l in
    ground (arith, l')

a_waits : (watch_prefix one_key 5 told_five (notified (codes "/p/k")) []).0 ≡ none
unfolding watch_prefix answer_of wait_next respond update ensure_watches lookup insert text_dec
a_waits = refl

waits : Waits one_key 5 told_five []
waits key e =
    let is_a : codes "/p/k" ≡ key = (same_iff (codes "/p/k") key).0 (ground (arith, e)) in
    subst (λ k. (watch_prefix one_key 5 told_five (notified k) []).0 ≡ none) is_a a_waits

-- A resource whose backend is that server.
abbrev etcd_world : World memory
etcd_world = world (record (app false true []) {
  store_client = record {
    get_values = λ keys d. (Etcd.get_values serve keys, d);
    watch_prefix = λ prefix keys index d. (ok index, d);
  };
})

p_Names : Names (codes "p" ∷ [])
unfolding is_dot is_dot_dot
p_Names = (record { no_slash = (refl, tt); not_dot = refl; not_dot_dot = refl }, tt)

k_Names : Names (codes "k" ∷ [])
unfolding is_dot is_dot_dot
k_Names = (record { no_slash = (refl, tt); not_dot = refl; not_dot_dot = refl }, tt)

under_p : KeysUnder (codes "p" ∷ []) (read_at written_once 9 one_key [])
unfolding take_pairs under_key insert text_dec
under_p = ((codes "k" ∷ [], k_Names, refl), tt)

k_among : is_among (codes "/p/k") one_key ≡ true
unfolding text_dec
k_among = refl

k_there : has_pair (codes "/p/k") (codes "v") (written_once.at 9 (codes "/p/k")) ≡ true
unfolding text_dec
k_there = refl

no_other : AllAgree (codes "/p/k") (codes "v") written_once 9 one_key
no_other key m other h = ground (arith, h, same_iff (codes "v") other)

set_vars-waiting_example :
    lookup (codes "/k") (set_vars memory etcd_world).1.resource.store ≡ some (codes "v")
unfolding append_prefix path_join
set_vars-waiting_example =
    set_vars-waiting memory memory-StoreModel written_once serve serve-Serves etcd_world
      (codes "p" ∷ []) (codes "k" ∷ []) disk 5 9 told_five [] (codes "/p/k") (codes "v") refl
      p_Names k_Names refl under_p (omega arith) (omega arith) all_told waits k_among (inl refl)
      k_there no_other
