-- ===== src/Backends/Etcd/Fresh.antt =====
-- `GetValues` and `WatchPrefix` of etcd together: what was read while nothing new is told.
use confd.Prelude.{
  ℕ, ◌≤◌, ◌≡◌, refl, ap, ◌∙◌, inl, inr, Bool, true, none, some, List, [], ◌∷◌, exists, arith,
}
use confd.Std.Text.{Text, same, same_iff}
use confd.Std.Result.{ok}
use confd.Std.Dict.{Dict}
use confd.Backends.Etcd.{Txn, take_pairs, get_values}
use confd.Backends.Etcd.Snapshot.{Server, Serves, read_at, get_values-Snapshot}
use confd.Backends.Etcd.Watch.{Response, Watch, respond_all}
use confd.Backends.Etcd.Prefix.{notified, watch_of, watch_prefix, watch_prefix-answers}

abbrev pub is_among : Text → List Text → Bool
is_among key keys = exists (λ k. same k key) keys

-- `WatchPrefix` waits: no watch of its keys has an answer.
abbrev pub Waits : List Text → ℕ → (Text → List Response) → Dict Watch → Type 0
Waits keys wait_index arrivals watches =
    (key : Text)
    → is_among key keys ≡ true
    → (watch_prefix keys wait_index arrivals (notified key) watches).0 ≡ none

-- Each change under a key was told to its watch: nothing changed there since the revision to which
-- the watch has come.
abbrev pub AllTold : Server → ℕ → List Text → (Text → List Response) → Dict Watch → Type 0
AllTold server now keys arrivals watches =
    (key : Text) (w : Watch)
    → is_among key keys ≡ true
    → watch_of key keys watches ≡ some w
    → (r : ℕ) → (respond_all (arrivals key) w).revision ≤ r
    → r ≤ now
    → server.at r key ≡ server.at now key

read_at-same :
    (server : Server) (r now : ℕ) (keys : List Text) (vars : Dict Text)
    → ((key : Text) → is_among key keys ≡ true → server.at r key ≡ server.at now key)
    → read_at server r keys vars ≡ read_at server now keys vars
read_at-same server r now [] vars h = refl
read_at-same server r now (key ∷ keys) vars h =
    ap (λ pairs. read_at server r keys (take_pairs key pairs vars))
      (h key (ground (arith, same_iff key key)))
    ∙ read_at-same server r now keys _ (λ k e. h k (ground (arith, e)))

module _ (server : Server) (txn : Txn) (serves : Serves server txn) where
  waiting-same :
      (keys : List Text) (wait_index now : ℕ) (arrivals : Text → List Response)
      (watches : Dict Watch)
      → wait_index ≤ server.head 0
      → server.head 0 ≤ now
      → AllTold server now keys arrivals watches
      → Waits keys wait_index arrivals watches
      → (key : Text) → is_among key keys ≡ true
      → server.at (server.head 0) key ≡ server.at now key
  waiting-same keys wait_index now arrivals watches h g told waits key e =
      let (w, f, r) = watch_prefix-answers keys wait_index arrivals key watches e in
      elim r [
        | inl (l, _) ↦ told key w e f (server.head 0) (omega (arith, l, h)) g
        | inr (n, a, _, _) ↦ let q = waits key e in absurd (cc)
      ]

  -- The values that `GetValues` read after `WatchPrefix` had answered an index are still those of the
  -- server while the next `WatchPrefix`, from that index, waits: no change is lost between the two,
  -- whatever is written between the answer, the transactions of `GetValues` and the next call. Each
  -- change is told to the watch of its key, and the server's revision was at least the index when
  -- the values were read.
  pub get_values-waiting :
      (keys : List Text) (wait_index now : ℕ) (arrivals : Text → List Response)
      (watches : Dict Watch)
      → wait_index ≤ server.head 0
      → server.head 0 ≤ now
      → AllTold server now keys arrivals watches
      → Waits keys wait_index arrivals watches
      → get_values txn keys ≡ ok (read_at server now keys [])
  get_values-waiting keys wait_index now arrivals watches h g told waits =
      get_values-Snapshot server txn serves keys
      ∙ ap ok (
          read_at-same server (server.head 0) now keys []
            (waiting-same keys wait_index now arrivals watches h g told waits))
