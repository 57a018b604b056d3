-- ===== src/Backends/Env/Store.antt =====
-- From the environment to the store of a template.
use mathlib.Core.Option.{some-injective}
use confd.Prelude.{
  ◌≡◌, sym, ap, ◌∙◌, inl, inr, true, some, List, [], ◌∷◌, ◌++◌, Option-cases, Bool-cases,
}
use confd.Std.Text.{Text, same, has_prefix}
use confd.Std.Result.{ok}
use confd.Std.Dict.{Dict, lookup, insert, NodupKeys, insert-NodupKeys}
use confd.Std.Path.Canonical.{Names, root_path}
use confd.Util.{append_prefix}
use confd.Platform.{Platform}
use confd.Platform.Laws.{StoreModel}
use confd.Template.Resource.{World}
use confd.Template.Resource.Vars.{set_vars}
use confd.Template.Resource.Vars.Contents.{KeysUnder, set_vars-get}
use confd.Backends.Env.{transform, clean, env_map, collect, collect_all, get_values}
use confd.Backends.Env.Found.{
  Has, here, later, SourceOf, AskedFor, get_values-Source, get_values_complete,
  get_values-collected,
}

-- The variable stands for a clean path under the prefix.
abbrev pub StandsUnder : List Text → Text → Type 0
StandsUnder ps name = (ks : List Text) × Names ks × (clean name ≡ root_path (ps ++ ks))

-- So does each variable of the environment whose name begins with that of a key asked for.
abbrev pub AllStandUnder : List Text → List Text → Dict Text → Type 0
AllStandUnder ps keys found =
    (name v : Text) → Has name v found → AskedFor name keys → StandsUnder ps name

insert-KeysUnder :
    (ps : List Text) (name v : Text) (m : Dict Text)
    → StandsUnder ps name
    → KeysUnder ps m
    → KeysUnder ps (insert (clean name) v m)
unfolding insert
insert-KeysUnder ps name v [] h u = (h, tt)
insert-KeysUnder ps name v ((j, w) ∷ m) h u = elim (Bool-cases (same j (clean name))) [
  | inl e ↦ rw e (h, u.1)
  | inr e ↦ rw e (u.0, insert-KeysUnder ps name v m h u.1)
]

collect-KeysUnder :
    (ps : List Text) (prefix : Text) (found m : Dict Text)
    → ((name v : Text) → Has name v found → has_prefix name prefix ≡ true → StandsUnder ps name)
    → KeysUnder ps m
    → KeysUnder ps (collect prefix found m)
unfolding collect
collect-KeysUnder ps prefix [] m h u = u
collect-KeysUnder ps prefix ((n, w) ∷ found) m h u =
    collect-KeysUnder ps prefix found _ (λ name v has e. h name v (later has) e)
      (elim (Bool-cases (has_prefix n prefix)) [
        | inl e ↦ rw e (insert-KeysUnder ps n w m (h n w here e) u)
        | inr e ↦ rw e u
      ])

collect_all-KeysUnder :
    (ps keys : List Text) (found m : Dict Text)
    → AllStandUnder ps keys found
    → KeysUnder ps m
    → KeysUnder ps (collect_all keys found m)
unfolding collect_all
collect_all-KeysUnder ps [] found m h u = u
collect_all-KeysUnder ps (key ∷ keys) found m h u =
    collect_all-KeysUnder ps keys found _ (λ name v has a. h name v has (inr a))
      (collect-KeysUnder ps (transform key) found m (λ name v has e. h name v has (inl e)) u)

collect-NodupKeys :
    (prefix : Text) (found m : Dict Text) → NodupKeys m → NodupKeys (collect prefix found m)
unfolding collect
collect-NodupKeys prefix [] m u = u
collect-NodupKeys prefix ((n, w) ∷ found) m u =
    collect-NodupKeys prefix found _ (elim (Bool-cases (has_prefix n prefix)) [
      | inl e ↦ rw e (insert-NodupKeys (clean n) w m u)
      | inr e ↦ rw e u
    ])

collect_all-NodupKeys :
    (keys : List Text) (found m : Dict Text) → NodupKeys m → NodupKeys (collect_all keys found m)
unfolding collect_all
collect_all-NodupKeys [] found m u = u
collect_all-NodupKeys (key ∷ keys) found m u =
    collect_all-NodupKeys keys found _ (collect-NodupKeys (transform key) found m u)

-- A key with one value in the environment.
abbrev pub OneValue : Text → Text → Dict Text → Type 0
OneValue k v found = (name w : Text) → Has name w found → clean name ≡ k → w ≡ v

SourceOf-value :
    (keys : List Text) (found : Dict Text) (k v w : Text)
    → OneValue k v found
    → SourceOf keys found k w
    → w ≡ v
SourceOf-value [] found k v w one s = absurd s
SourceOf-value (key ∷ keys) found k v w one (inl s) = one s.name w s.present s.stands_for
SourceOf-value (key ∷ keys) found k v w one (inr s) = SourceOf-value keys found k v w one s

lookup-get_values :
    (environ keys : List Text) (found vars : Dict Text) (name v : Text)
    → env_map environ [] ≡ some found
    → get_values environ keys ≡ some vars
    → Has name v found
    → AskedFor name keys
    → OneValue (clean name) v found
    → lookup (clean name) vars ≡ some v
lookup-get_values environ keys found vars name v h e has asked one =
    elim (Option-cases (lookup (clean name) vars)) [
      | inl l ↦ absurd (get_values_complete environ keys found vars name v h e has asked l)
      | inr (w, l) ↦
          l
          ∙ ap some (
              SourceOf-value keys found (clean name) v w one
                (get_values-Source environ keys found vars (clean name) w h e l))
    ]

module _ (P : Platform) (M : StoreModel P) where
  -- A resource whose backend is the environment, with a prefix that is a clean path: where a variable's
  -- name begins with that of a key of the resource and stands for a name under the prefix, a template
  -- finds the variable's value under that name after `setVars`. No other variable with another value
  -- may stand for the same key, and each variable that the keys ask for stands for a clean path under
  -- the prefix.
  pub set_vars-environment :
      (w : World P) (environ : List Text) (found vars : Dict Text) (ps ks : List Text) (s : P.State)
      (name v : Text)
      → w.resource.prefix ≡ root_path ps
      → Names ps
      → Names ks
      → env_map environ [] ≡ some found
      → get_values environ (append_prefix w.resource.prefix w.resource.keys) ≡ some vars
      → w.resource.store_client.get_values
          (append_prefix w.resource.prefix w.resource.keys)
          w.outside
        ≡ (ok vars, s)
      → AllStandUnder ps (append_prefix w.resource.prefix w.resource.keys) found
      → Has name v found
      → AskedFor name (append_prefix w.resource.prefix w.resource.keys)
      → clean name ≡ root_path (ps ++ ks)
      → OneValue (clean name) v found
      → P.store_get (root_path ks) (set_vars P w).1.resource.store ≡ some v
  set_vars-environment w environ found vars ps ks s name v e hp hk h read answer under has asked
        stands one =
      let keys = append_prefix w.resource.prefix w.resource.keys in
      let collected : vars ≡ collect_all keys found [] =
        some-injective _ _ (sym read ∙ get_values-collected environ keys found h) in
      let u : KeysUnder ps vars = rw collected (collect_all-KeysUnder ps keys found [] under tt) in
      let n : NodupKeys vars = rw collected (collect_all-NodupKeys keys found [] tt) in
      set_vars-get P M w ps ks vars s e hp hk answer u n
      ∙ ap (λ k. lookup k vars) (sym stands)
      ∙ lookup-get_values environ keys found vars name v h read has asked one
