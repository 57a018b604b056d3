-- ===== src/Tests/Redis.antt =====
-- The redis backend at a small server, and the watch of a prefix of etcd.
use confd.Prelude.{
  ℕ, zero, suc, if◌then◌else◌, ◌≡◌, refl, ◌≢◌, ◌↔◌, ◌<◌, ◌≤◌, ◌⊎◌, inr, true, false, none, some,
  List, [], ◌∷◌, exists, All, arith,
}
use confd.Std.Text.{Text, codes, same, text_dec}
use confd.Std.Result.{ok, err}
use confd.Std.Dict.{Dict, lookup}
use confd.Backends.Redis
use confd.Backends.Redis.{
  Answer, Server, Call, returns, panics, transform, clean, add_keys, read_key, pattern_below,
}
use confd.Backends.Redis.Names.{clean-transform_byte}
use confd.Backends.Redis.Scans.{Parts, last, more, concat, found, or_else, read_key-Parts}
use confd.Backends.Redis.Connect.{Net, is_pong, connected_client}
use confd.Backends.Redis.Connect.First.{connected_client-panics}
use confd.Backends.Etcd.Prefix
use confd.Backends.Etcd.Prefix.{notified, watch_of, watch_prefix-answers}
use confd.Backends.Etcd.Watch.{Response, Watch, respond_all}

no_colon : All (λ c. c ≢ 58) (codes "app/db")
no_colon = (
  (λ e. ground (arith, e)),
  (
    (λ e. ground (arith, e)),
    (
      (λ e. ground (arith, e)),
      ((λ e. ground (arith, e)), ((λ e. ground (arith, e)), ((λ e. ground (arith, e)), tt))),
    ),
  ),
)

clean-transform_byte_example :
    clean (codes ":") (transform (codes ":") (codes "/app/db")) ≡ codes "/app/db"
clean-transform_byte_example =
    clean-transform_byte 58 (codes "app/db") (inr ((λ e. ground (arith, e)), no_colon))

-- A server with two keys below `/p`, which a scan finds in two parts.
server : Server
server = record {
  type_of = λ k. Redis.ok (codes "none");
  get = λ k. Redis.ok (codes "v");
  hscan = λ k idx. Redis.nil;
  scan = λ idx pattern. elim idx [
    | zero ↦ Redis.ok (record { cursor = 7; items = codes "/p/a" ∷ [] })
    | suc n ↦ Redis.ok (record { cursor = 0; items = codes "/p/b" ∷ [] })
  ];
}

abbrev pages : List (List Text)
pages = (codes "/p/a" ∷ []) ∷ (codes "/p/b" ∷ []) ∷ []

scanned :
    Parts
      (λ idx.
        server.scan idx
          (pattern_below (codes "/") (codes "/p") (transform (codes "/") (codes "/p"))))
      0
      pages
unfolding server
scanned = more refl (last refl)

type_is_none : server.type_of (transform (codes "/") (codes "/p")) ≡ Redis.ok (codes "none")
unfolding server
type_is_none = refl

read_key-Parts_example :
    (result : Dict Text) × (read_key server 2 (codes "/") (codes "/p") [] ≡ returns result)
    × (lookup (codes "/p/b") result
        ≡ or_else
            (found server (codes "/") (codes "/p/b") (concat pages))
            (lookup (codes "/p/b") []))
read_key-Parts_example =
    read_key-Parts server (codes "/") (codes "/p") (codes "none") pages 2 [] (codes "/p/b")
      type_is_none (λ e. ground (arith, e)) (λ e. ground (arith, e)) scanned (omega arith)

-- The first machine refuses, the second answers, and a connection's PING returns an empty reply.
net : Net Text
net = record {
  exists = λ path. false;
  dial = λ options.
      if same options.target.address (codes "a")
      then err (codes "refused")
      else ok options.password;
  ping = λ conn. (some [], none);
}

machines : List Text
machines = codes "a" ∷ codes "b/3" ∷ []

connected_client-panics_example :
    (connected_client net machines (codes "pw") (some (codes "old")) ≡ panics) ↔ (
      (conn : Text) × (some (codes "old") ≡ some conn)
      × ((net.ping conn).1 ≡ none)
      × (is_pong (net.ping conn).0 ≡ false))
connected_client-panics_example =
    connected_client-panics net machines (codes "pw") (some (codes "old"))

abbrev asked : List Text
asked = codes "/a" ∷ codes "/b" ∷ []

abbrev arrivals : Text → List Response
arrivals key = record { compact = 0; header = 9 } ∷ []

is_asked : exists (λ k. same k (codes "/b")) asked ≡ true
unfolding text_dec
is_asked = refl

watch_prefix-answers_example :
    (w : Watch) × (watch_of (codes "/b") asked [] ≡ some w)
    × (((respond_all (arrivals (codes "/b")) w).revision ≤ 4)
          × ((Prefix.watch_prefix asked 4 arrivals (notified (codes "/b")) []).0 ≡ none)
        ⊎ ((n : ℕ) × ((Prefix.watch_prefix asked 4 arrivals (notified (codes "/b")) []).0
              ≡ some (ok n))
            × (4 < n)
            × (n ≤ (respond_all (arrivals (codes "/b")) w).revision)))
watch_prefix-answers_example = watch_prefix-answers asked 4 arrivals (codes "/b") [] is_asked
