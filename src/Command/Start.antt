-- ===== src/Command/Start.antt =====
-- cmd/confd/main.go: `backends.New` at the configuration that `initConfig` accepted.
use confd.Prelude.{◌≡◌, refl, ◌≢◌, ap, sym, ◌∙◌, ◌⊎◌, inl, inr, false, none, List, [], ◌∷◌, arith}
use confd.Std.Text.{Text, codes, same}
use confd.Backends.Choice.{Config, new_vault, backend_or_etcd, new_named, new_client}
use confd.Command.Settings.{Settings}
use confd.Command.Config.{Host, ready, init_config}
use confd.Command.Config.Ready.{needs_nodes, init_config-IsReady}

new_vault-some : (b : Config) (nodes : List Text) → nodes ≢ [] → new_vault b nodes ≢ none
unfolding new_vault
new_vault-some b [] n h = n refl
new_vault-some b (node ∷ nodes) n h = cc

new_named-some :
    (b : Config) (backend : Text)
    → (b.backend_nodes ≢ []) ⊎ (same backend (codes "vault") ≡ false)
    → new_named b backend ≢ none
unfolding new_named
new_named-some b backend (inl n) = let m = new_vault-some b b.backend_nodes n in ground (arith, m)
new_named-some b backend (inr e) = ground (arith, e)

backend_or_etcd-set : (backend : Text) → backend ≢ [] → backend_or_etcd backend ≡ backend
unfolding backend_or_etcd
backend_or_etcd-set [] n = absurd (n refl)
backend_or_etcd-set (c ∷ backend) n = refl

no_vault : (backend : Text) → needs_nodes backend ≡ false → same backend (codes "vault") ≡ false
no_vault backend h = ground (arith, h)

-- `New` does not panic at the backend and the addresses of a configuration that `initConfig`
-- accepted: it returns a client or an error.
pub new_client-ready :
    (host : Host) (c d : Settings) (b : Config)
    → init_config host c ≡ ready d
    → b.backend ≡ d.backend
    → b.backend_nodes ≡ d.backend_nodes
    → new_client b ≢ none
unfolding new_client
new_client-ready host c d b h e f =
    let r = init_config-IsReady host c d h in
    let n : (b.backend_nodes ≢ []) ⊎ (same b.backend (codes "vault") ≡ false) = elim r.nodes_set [
      | inl m ↦ inl (λ k. m (sym f ∙ k))
      | inr m ↦ inr (no_vault b.backend (ap needs_nodes e ∙ m))
    ] in
    rw (backend_or_etcd-set b.backend (λ k. r.backend_set (sym e ∙ k)))
      (new_named-some b b.backend n)
