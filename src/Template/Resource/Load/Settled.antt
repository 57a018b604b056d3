-- ===== src/Template/Resource/Load/Settled.antt =====
-- What holds of every resource that `NewTemplateResource` returns.
use confd.Prelude.{
  ◌≡◌, refl, sym, ◌≢◌, Bool, true, false, Option, none, some, [], ◌∷◌, ◌++◌, Bool-cases, ◌⊎◌, inl,
  inr, if◌then◌else◌,
}
use mathlib.Core.Path.{subst}
use confd.Std.Text.{Text, codes, same, same_iff, has_prefix}
use confd.Std.Result.{Error, Result, ok, err, ◌>>=◌, map_error, ok_inj}
use confd.Std.Path.{slash, path_join}
use confd.Std.Strconv.{atoi}
use confd.Std.Int.{ℤ, is_minus_one}
use confd.Platform.{Platform, StoreClient, ResourceFields}
use confd.Template.Resource.{Config, TemplateResource}
use confd.Template.Resource.Load.{
  unset_fields, override, choose_prefix, id_of_name, choose_id, resource_of, user_id, group_id,
  finish_resource, new_template_resource,
}

-- A prefix that begins with a slash stays, and any other gets one in front.
abbrev pub IsRootedAs : Text → Text → Type 0
IsRootedAs prefix rooted =
    ((has_prefix prefix (slash ∷ []) ≡ true) × (rooted ≡ prefix))
    ⊎ ((has_prefix prefix (slash ∷ []) ≡ false) × (rooted ≡ slash ∷ prefix))

-- The prefix of the configuration, where it has one, and else that of the file.
abbrev pub IsPrefixOf : Text → Text → Text → Type 0
IsPrefixOf given own prefix =
    ((given ≢ []) × IsRootedAs given prefix) ⊎ ((given ≡ []) × IsRootedAs own prefix)

-- The id that was set, or that of the process where neither id nor name was set, or that which was
-- found for the name, read as a number.
abbrev pub IsIdFor : ℤ → Text → (Text → Result Text) → ℤ → ℤ → Type 0
IsIdFor set name lookup current id =
    ((is_minus_one set ≡ false) × (id ≡ set))
    ⊎ (((is_minus_one set ≡ true) × (name ≡ []) × (id ≡ current))
        ⊎ ((found : Text) × (is_minus_one set ≡ true)
            × (name ≢ [])
            × (lookup name ≡ ok found)
            × (atoi found ≡ ok id)))

rooted-IsRootedAs :
    (prefix : Text)
    → IsRootedAs prefix (if has_prefix prefix (slash ∷ []) then prefix else slash ∷ prefix)
rooted-IsRootedAs prefix = elim (Bool-cases (has_prefix prefix (slash ∷ []))) [
  | inl e ↦ inl (e, rw e refl)
  | inr e ↦ inr (e, rw e refl)
]

choose_prefix-IsPrefixOf : (given own : Text) → IsPrefixOf given own (choose_prefix given own)
unfolding choose_prefix override
choose_prefix-IsPrefixOf [] own = inr (refl, rooted-IsRootedAs own)
choose_prefix-IsPrefixOf (c ∷ given) own = inl (λ h. cc, rooted-IsRootedAs (c ∷ given))

map_error-ok : (e : Error) (r : Result ℤ) (id : ℤ) → map_error (λ x. e ++ x) r ≡ ok id → r ≡ ok id
map_error-ok e (err x) id h = cc
map_error-ok e (ok i) id h = h

found-IsIdFor :
    (set : ℤ) (name : Text) (lookup : Text → Result Text) (e e' : Error) (current id : ℤ)
    (r : Result Text)
    → is_minus_one set ≡ true
    → name ≢ []
    → lookup name ≡ r
    → (do found ← map_error (λ x. e ++ x) r; map_error (λ x. e' ++ x) (atoi found)) ≡ ok id
    → IsIdFor set name lookup current id
found-IsIdFor set name lookup e e' current id (err x) m n l h = cc
found-IsIdFor set name lookup e e' current id (ok found) m n l h =
    inr (inr (found, m, n, l, map_error-ok e' (atoi found) id h))

choose_id-IsIdFor :
    (set : ℤ) (name : Text) (lookup : Text → Result Text) (e : Error) (current id : ℤ)
    → choose_id set name lookup e current ≡ ok id
    → IsIdFor set name lookup current id
unfolding choose_id id_of_name
choose_id-IsIdFor set [] lookup e current id h = elim (Bool-cases (is_minus_one set)) [
  | inl m ↦ inr (inl (m, refl, sym (ok_inj (rw m at h))))
  | inr m ↦ inl (m, sym (ok_inj (rw m at h)))
]
choose_id-IsIdFor set (c ∷ name) lookup e current id h = elim (Bool-cases (is_minus_one set)) [
  | inl m ↦
      found-IsIdFor set (c ∷ name) lookup e (codes "Cannot convert string to int - ") current id
        (lookup (c ∷ name)) m (λ k. cc) refl (rw m at h)
  | inr m ↦ inl (m, sym (ok_inj (rw m at h)))
]

-- What a loaded resource has, given the fields that were decoded.
pub record Settled (P : Platform) (config : Config P) (f : ResourceFields) (s : P.State)
    (t : TemplateResource P) : Type 0 where
  pub client : config.store_client ≡ some t.store_client
  pub src_set : f.src ≢ []
  pub src : t.src ≡ path_join (config.template_dir ∷ f.src ∷ [])
  pub prefix : IsPrefixOf config.prefix f.prefix t.prefix
  pub noop : t.noop ≡ config.noop
  pub sync_only : t.sync_only ≡ config.sync_only
  pub keep_stage_file : t.keep_stage_file ≡ config.keep_stage_file
  pub dest : t.dest ≡ f.dest
  pub keys : t.keys ≡ f.keys
  pub check_cmd : t.check_cmd ≡ f.check_cmd
  pub reload_cmd : t.reload_cmd ≡ f.reload_cmd
  pub mode : t.mode ≡ f.mode
  pub file_mode : t.file_mode ≡ f.file_mode
  pub owner : t.owner ≡ f.owner
  pub group : t.group ≡ f.group
  pub last_index : t.last_index ≡ 0
  pub stage_file : t.stage_file ≡ none
  pub store : t.store ≡ P.new_store
  pub uid : IsIdFor f.uid f.owner (λ name. P.lookup_user name s) (P.euid s) t.uid
  pub gid : IsIdFor f.gid f.group (λ name. P.lookup_group name s) (P.egid s) t.gid

module _ (P : Platform) where
  finish_resource-Settled :
      (config : Config P) (client : StoreClient P) (f : ResourceFields) (s : P.State)
      (t : TemplateResource P)
      → config.store_client ≡ some client
      → finish_resource P config client f s ≡ ok t
      → Settled P config f s t
  unfolding finish_resource user_id group_id
  finish_resource-Settled config client f s t c =
      go (same f.src []) (user_id P f s) (group_id P f s) refl refl refl
    where
      go :
          (b : Bool) (ru rg : Result ℤ)
          → same f.src [] ≡ b
          → user_id P f s ≡ ru
          → group_id P f s ≡ rg
          → (if b
              then err (codes "empty src template")
              else (do uid ← ru; gid ← rg; ok (resource_of P config client f uid gid)))
            ≡ ok t
          → Settled P config f s t
      go true ru rg e u g h = cc
      go false (err x) rg e u g h = cc
      go false (ok uid) (err x) e u g h = cc
      go false (ok uid) (ok gid) e u g h = subst (Settled P config f s) (ok_inj h) (record {
        client = c;
        src_set = λ k. cc ((same_iff f.src []).1 k, e);
        src = refl;
        prefix = choose_prefix-IsPrefixOf config.prefix f.prefix;
        noop = refl;
        sync_only = refl;
        keep_stage_file = refl;
        dest = refl;
        keys = refl;
        check_cmd = refl;
        reload_cmd = refl;
        mode = refl;
        file_mode = refl;
        owner = refl;
        group = refl;
        last_index = refl;
        stage_file = refl;
        store = refl;
        uid = choose_id-IsIdFor f.uid f.owner _ _ (P.euid s) uid u;
        gid = choose_id-IsIdFor f.gid f.group _ _ (P.egid s) gid g;
      })

  -- A resource that is returned comes from a decoded file that names a source template, which is
  -- looked for in the template directory. Its prefix is that of the configuration, or that of the
  -- file where the configuration has none, with a slash put in front where it has none. Its client,
  -- noop, sync_only and keep_stage_file are those of the configuration, and its keys, destination,
  -- commands, mode, owner and group those of the file. Its store is new, it has no staged file and
  -- no index, and each id is the one that the file set, or the number that the name in the file
  -- was found to have, or that of the process where the file set neither.
  pub new_template_resource-Settled :
      (path : Text) (config : Config P) (s : P.State) (t : TemplateResource P)
      → new_template_resource P path config s ≡ ok t
      → (f : ResourceFields) × (P.decode_toml path unset_fields s ≡ ok f) × Settled P config f s t
  unfolding new_template_resource
  new_template_resource-Settled path config s t =
      go config.store_client (P.decode_toml path unset_fields s) refl refl
    where
      go :
          (c : Option (StoreClient P)) (d : Result ResourceFields)
          → config.store_client ≡ c
          → P.decode_toml path unset_fields s ≡ d
          → (let out : Result (TemplateResource P) = elim c [
            | none ↦ err (codes "A valid StoreClient is required.")
            | some client ↦ do
              fields ←
                  map_error
                    (λ e. codes "Cannot process template resource " ++ (path ++ (codes " - " ++ e)))
                    d
              finish_resource P config client fields s
          ] in
              out)
            ≡ ok t
          → (f : ResourceFields) × (P.decode_toml path unset_fields s ≡ ok f)
            × Settled P config f s t
      go none d k e h = cc
      go (some client) (err x) k e h = cc
      go (some client) (ok f) k e h = (f, e, finish_resource-Settled config client f s t k h)
