-- ===== src/Command/Config/Ready.antt =====
-- What holds of a configuration that `initConfig` accepts.
use confd.Prelude.{
  ◌≡◌, refl, ◌≢◌, ap, ◌⊎◌, inl, inr, Bool, true, false, ◌&&◌, ◌||◌, List, [], ◌∷◌, arith,
  Bool-cases, if◌then◌else◌, ◌==◌,
}
use mathlib.Core.Path.{subst}
use confd.Std.Text.{Text, codes, same, same_iff, split, push_first}
use confd.Std.Result.{Result, ok, err}
use confd.Std.Path.{path_join}
use confd.Command.Settings.{Settings}
use confd.Command.Config.{
  Host, Outcome, ready, failed, exits, etcd_nodes, default_nodes, nodes_or, fill_nodes,
  is_unsupported, check_settings, finish, bad_level, configure, configure_loaded, process_env,
  init_config,
}

-- The backends that are reached at an address.
abbrev pub needs_nodes : Text → Bool
needs_nodes backend =
    same backend (codes "consul")
    || same backend (codes "etcd")
    || same backend (codes "redis")
    || same backend (codes "vault")
    || same backend (codes "zookeeper")

pub record IsReady (c : Settings) : Type 0 where
  pub backend_set : c.backend ≢ []
  pub watchable : (c.watch ≡ false) ⊎ (is_unsupported c.backend ≡ false)
  pub table_set : (same c.backend (codes "dynamodb") ≡ false) ⊎ (c.table ≢ [])
  pub nodes_set : (c.backend_nodes ≢ []) ⊎ (needs_nodes c.backend ≡ false)
  pub config_dir : c.config_dir ≡ path_join (c.conf_dir ∷ codes "conf.d" ∷ [])
  pub template_dir : c.template_dir ≡ path_join (c.conf_dir ∷ codes "templates" ∷ [])

push_first-cons : (c : _) (parts : List Text) → push_first c parts ≢ []
unfolding push_first
push_first-cons c [] h = cc
push_first-cons c (part ∷ parts) h = cc

split-cons : (s : Text) (sep : _) → split s sep ≢ []
unfolding split
split-cons [] sep h = cc
split-cons (c ∷ s) sep h = go (c == sep) h
  where
    go : (b : Bool) → (if b then [] ∷ split s sep else push_first c (split s sep)) ≢ []
    go true e = cc
    go false e = push_first-cons c (split s sep) e

etcd_nodes-cons : (peerstr : Text) → etcd_nodes peerstr ≢ []
unfolding etcd_nodes
etcd_nodes-cons [] h = cc
etcd_nodes-cons (c ∷ peerstr) h = split-cons (c ∷ peerstr) b',' h

default_nodes-cons :
    (host : Host) (backend : Text)
    → (default_nodes host backend ≢ []) ⊎ (needs_nodes backend ≡ false)
unfolding default_nodes
default_nodes-cons host backend =
    let n = etcd_nodes-cons (host.getenv (codes "ETCDCTL_PEERS")) in ground (arith, n)

nodes_or-cons :
    (given own : List Text) (needed : Bool)
    → (given ≢ []) ⊎ (needed ≡ false)
    → (nodes_or given own ≢ []) ⊎ (needed ≡ false)
unfolding nodes_or
nodes_or-cons given [] needed h = h
nodes_or-cons given (node ∷ nodes) needed h = inl (λ e. cc)

and_false : (a b : Bool) → (a && b) ≡ false → (a ≡ false) ⊎ (b ≡ false)
and_false true b h = inr h
and_false false b h = inl refl

ready_inj : {c d : Settings} → ready c ≡ ready d → c ≡ d
ready_inj {c} h = ap (λ (o : Outcome). elim o [ ready x ↦ x | failed e ↦ c | exits ↦ c ]) h

check_settings-IsReady :
    (c d : Settings)
    → (c.backend_nodes ≢ []) ⊎ (needs_nodes c.backend ≡ false)
    → check_settings c ≡ ready d
    → IsReady d
unfolding check_settings
check_settings-IsReady c d n =
    go (c.watch && is_unsupported c.backend) (same c.backend (codes "dynamodb") && same c.table [])
      (same c.backend []) refl refl refl
  where
    go :
        (x y z : Bool)
        → (c.watch && is_unsupported c.backend) ≡ x
        → (same c.backend (codes "dynamodb") && same c.table []) ≡ y
        → same c.backend [] ≡ z
        → (if x
            then exits
            else if y
            then failed (codes "No DynamoDB table configured")
            else if z
            then exits
            else ready (record c {
              config_dir = path_join (c.conf_dir ∷ codes "conf.d" ∷ []);
              template_dir = path_join (c.conf_dir ∷ codes "templates" ∷ []);
            }))
          ≡ ready d
        → IsReady d
    go true y z e f g h = cc
    go false true z e f g h = cc
    go false false true e f g h = cc
    go false false false e f g h = subst IsReady (ready_inj h) (record {
      backend_set = λ k. cc ((same_iff c.backend []).1 k, g);
      watchable = and_false _ _ e;
      table_set = elim (and_false _ _ f) [
        | inl a ↦ inl a
        | inr a ↦ inr (λ k. cc ((same_iff c.table []).1 k, a))
      ];
      nodes_set = n;
      config_dir = refl;
      template_dir = refl;
    })

finish-IsReady :
    (host : Host) (r : Result Settings) (d : Settings) → finish host r ≡ ready d → IsReady d
unfolding finish fill_nodes
finish-IsReady host (err e) d h = cc
finish-IsReady host (ok c) d h =
    check_settings-IsReady _ d
      (nodes_or-cons (default_nodes host c.backend) c.backend_nodes (needs_nodes c.backend)
        (default_nodes-cons host c.backend))
      h

configure-IsReady : (host : Host) (c d : Settings) → configure host c ≡ ready d → IsReady d
unfolding configure
configure-IsReady host c d h = elim (Bool-cases (bad_level host c)) [
  | inl e ↦ let stops : exits ≡ ready d = rw e at h in cc
  | inr e ↦ finish-IsReady host _ d (rw e at h)
]

configure_loaded-IsReady :
    (host : Host) (r : Result Settings) (d : Settings)
    → configure_loaded host r ≡ ready d
    → IsReady d
unfolding configure_loaded
configure_loaded-IsReady host (err e) d h = cc
configure_loaded-IsReady host (ok c) d h = configure-IsReady host (process_env host c) d h

-- A configuration that `initConfig` accepts names a backend, and one that can be watched if it is
-- to be watched; it has a table for DynamoDB and at least one address for each backend that is
-- reached at one, so that the first can be taken; its directories lie in the confd directory.
pub init_config-IsReady : (host : Host) (c d : Settings) → init_config host c ≡ ready d → IsReady d
unfolding init_config
init_config-IsReady host c d h = configure_loaded-IsReady host _ d h
