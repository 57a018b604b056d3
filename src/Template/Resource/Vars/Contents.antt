-- ===== src/Template/Resource/Vars/Contents.antt =====
-- What `setVars` leaves in the store.
use mathlib.Core.List.{append_cancel_left}
use confd.Prelude.{
  ◌≡◌, refl, ap, ◌∙◌, Bool, Option, none, some, List, [], ◌∷◌, ◌++◌, All-append, arith,
  if◌then◌else◌,
}
use confd.Std.Text.{Text, same, same-of_iff, trim_prefix}
use confd.Std.Text.Prefix.{trim_prefix-append}
use confd.Std.Result.{Result, ok}
use confd.Std.Dict.{Dict, lookup, NodupKeys}
use confd.Std.Path.{slash}
use confd.Std.Path.Canonical.{
  Names, IsName, root_path, abs_path, abs_path-append, root_path_inj, path_join-root_path, Denotes,
  abs_path-Denotes, relative-Denotes, nil-Denotes,
}
use confd.Util.{append_prefix}
use confd.Platform.{Platform}
use confd.Platform.Laws.{StoreModel}
use confd.Template.Resource.{World}
use confd.Template.Resource.Vars.{store_key, set_all, fill_store, set_vars}

-- What is left of a clean path when the prefix is cut off denotes the rest of its names.
trimmed-Denotes :
    (ps ks : List Text) → Names ks → Denotes (trim_prefix (root_path (ps ++ ks)) (root_path ps)) ks
trimmed-Denotes [] [] h = rw (trim_prefix-append (slash ∷ []) []) nil-Denotes
trimmed-Denotes [] (k ∷ ks) h =
    rw (trim_prefix-append (slash ∷ []) (k ++ abs_path ks)) (relative-Denotes k ks h)
trimmed-Denotes (p ∷ ps) ks h =
    rw (abs_path-append (p ∷ ps) ks)
      (rw (trim_prefix-append (abs_path (p ∷ ps)) (abs_path ks)) (abs_path-Denotes ks h))

-- The prefix is cut off a key of the backend, and nothing else.
pub store_key-root_path :
    (ps ks : List Text) → Names ks → store_key (root_path ps) (root_path (ps ++ ks)) ≡ root_path ks
unfolding store_key
store_key-root_path ps ks h =
    path_join-root_path [] (trim_prefix (root_path (ps ++ ks)) (root_path ps)) ks tt
      (trimmed-Denotes ps ks h)

-- The first value there is.
abbrev pub or_else {ℓ} : {A : Type ℓ} → Option A → Option A → Option A
or_else (some a) o = some a
or_else none o = o

or_else-none {ℓ} : {A : Type ℓ} (o : Option A) → or_else o none ≡ o
or_else-none (some a) = refl
or_else-none none = refl

-- Every key of a backend's answer is a clean path under the prefix.
abbrev pub KeysUnder : List Text → Dict Text → Type 0
KeysUnder ps [] = Unit
KeysUnder ps ((k, v) ∷ m) =
    ((ks : List Text) × Names ks × (k ≡ root_path (ps ++ ks))) × KeysUnder ps m

-- Two names under a prefix agree exactly if they agree without it.
same_under :
    (ps ls ks : List Text)
    → Names ps
    → Names ls
    → Names ks
    → same (root_path ls) (root_path ks) ≡ same (root_path (ps ++ ls)) (root_path (ps ++ ks))
same_under ps ls ks hp hl hk =
    same-of_iff (λ e. ap (λ (l : List Text). root_path (ps ++ l)) (root_path_inj ls ks hl hk e))
      (λ e. ap root_path (
        append_cancel_left ps ls ks (
          root_path_inj (ps ++ ls) (ps ++ ks) (All-append IsName ps ls hp hl)
            (All-append IsName ps ks hp hk) e)))

put_first :
    (k j : Text) (v : Text) (m : Dict Text) (o : Option Text) (b : Bool)
    → b ≡ same k j
    → lookup k m ≡ none
    → or_else (lookup j m) (if b then some v else o)
      ≡ or_else (if same k j then some v else lookup j m) o
put_first k j v m o b e fresh = ground arith

module _ (P : Platform) (M : StoreModel P) where
  set_all-get :
      (ps ks : List Text) (m : Dict Text) (store : P.Store)
      → Names ps
      → Names ks
      → KeysUnder ps m
      → NodupKeys m
      → P.store_get (root_path ks) (set_all P (root_path ps) m store)
        ≡ or_else (lookup (root_path (ps ++ ks)) m) (P.store_get (root_path ks) store)
  unfolding set_all lookup
  set_all-get ps ks [] store hp hk u n = refl
  set_all-get ps ks ((k, v) ∷ m) store hp hk ((ls, hl, e), u) (fresh, n) =
      set_all-get ps ks m _ hp hk u n
      ∙ ap (or_else (lookup (root_path (ps ++ ks)) m)) (M.get-set _ v (root_path ks) store)
      ∙ rw e (
          rw (store_key-root_path ps ls hl) (
            put_first (root_path (ps ++ ls)) (root_path (ps ++ ks)) v m
              (P.store_get (root_path ks) store) _ (same_under ps ls ks hp hl hk) (rw (← e) fresh)))

  -- Where the keys of the backend's answer are clean paths under the prefix, each once, a template
  -- finds under each name exactly the value that the backend has under the prefix and the name,
  -- and nothing of what the store held before.
  pub set_vars-get :
      (w : World P) (ps ks : List Text) (m : Dict Text) (s : P.State)
      → w.resource.prefix ≡ root_path ps
      → Names ps
      → Names ks
      → w.resource.store_client.get_values
          (append_prefix w.resource.prefix w.resource.keys)
          w.outside
        ≡ (ok m, s)
      → KeysUnder ps m
      → NodupKeys m
      → P.store_get (root_path ks) (set_vars P w).1.resource.store ≡ lookup (root_path (ps ++ ks)) m
  unfolding set_vars fill_store
  set_vars-get w ps ks m s e hp hk answer u n =
      ap
        (λ (r : Result (Dict Text) × P.State).
          P.store_get (root_path ks) (fill_store P w r).1.resource.store)
        answer
      ∙ ap
          (λ (prefix : Text).
            P.store_get (root_path ks) (set_all P prefix m (P.purge w.resource.store)))
          e
      ∙ set_all-get ps ks m (P.purge w.resource.store) hp hk u n
      ∙ ap (or_else (lookup (root_path (ps ++ ks)) m)) (M.get-purge (root_path ks) w.resource.store)
      ∙ or_else-none (lookup (root_path (ps ++ ks)) m)
