-- ===== src/Template/Resource/Load.antt =====
-- `NewTemplateResource`.
pub mod Settled
use confd.Prelude.{
  ℕ, ◌≡◌, refl, Bool, true, false, Option, none, some, List, [], ◌∷◌, ◌++◌, if◌then◌else◌,
}
use confd.Std.Text.{Text, codes, same, has_prefix}
use confd.Std.Result.{Error, Result, ok, err, ◌>>=◌, map_error}
use confd.Std.Path.{slash, path_join}
use confd.Std.Int.{ℤ, minus_one, is_minus_one}
use confd.Std.Strconv.{atoi}
use confd.Platform.{Platform, StoreClient, ResourceFields}
use confd.Template.Resource.{Config, TemplateResource}

-- The fields before the file is decoded: zero values, but for the two that tell whether the
-- configuration set them.
abbrev pub unset_fields : ResourceFields
unset_fields = record {
  check_cmd = [];
  dest = [];
  file_mode = 0;
  gid = minus_one;
  group = [];
  keys = [];
  mode = [];
  owner = [];
  prefix = [];
  reload_cmd = [];
  src = [];
  uid = minus_one;
}

-- `if config.Prefix != "" { tr.Prefix = config.Prefix }`
unfoldable pub override : Text → Text → Text
override [] own = own
override (c ∷ given) own = c ∷ given

-- The prefix of the configuration wins over that of the file, and a slash is put in front.
unfoldable pub choose_prefix : Text → Text → Text
choose_prefix given own =
    let prefix = override given own in
    if has_prefix prefix (slash ∷ []) then prefix else slash ∷ prefix

-- The id of a name, or that of the process where no name is given.
unfoldable pub id_of_name : Text → (Text → Result Text) → Error → ℤ → Result ℤ
id_of_name [] lookup cannot_find current = ok current
id_of_name (c ∷ name) lookup cannot_find current = do
  id ← map_error (λ e. cannot_find ++ e) (lookup (c ∷ name))
  map_error (λ e. codes "Cannot convert string to int - " ++ e) (atoi id)

-- An id that the file set stays; -1 stands for one that it did not set.
unfoldable pub choose_id : ℤ → Text → (Text → Result Text) → Error → ℤ → Result ℤ
choose_id set name lookup cannot_find current =
    if is_minus_one set then id_of_name name lookup cannot_find current else ok set

module _ (P : Platform) where
  -- The fields that are set on the resource once its ids are known.
  abbrev pub resource_of : Config P → StoreClient P → ResourceFields → ℤ → ℤ → TemplateResource P
  resource_of config client f uid gid = record {
    check_cmd = f.check_cmd;
    dest = f.dest;
    file_mode = f.file_mode;
    gid = gid;
    group = f.group;
    keys = f.keys;
    mode = f.mode;
    owner = f.owner;
    prefix = choose_prefix config.prefix f.prefix;
    reload_cmd = f.reload_cmd;
    src = path_join (config.template_dir ∷ f.src ∷ []);
    stage_file = none;
    uid = uid;
    last_index = 0;
    keep_stage_file = config.keep_stage_file;
    noop = config.noop;
    store = P.new_store;
    store_client = client;
    sync_only = config.sync_only;
  }

  unfoldable pub user_id : ResourceFields → P.State → Result ℤ
  user_id f s =
      choose_id f.uid f.owner (λ name. P.lookup_user name s) (codes "Cannot find owner's UID - ")
        (P.euid s)

  unfoldable pub group_id : ResourceFields → P.State → Result ℤ
  group_id f s =
      choose_id f.gid f.group (λ name. P.lookup_group name s) (codes "Cannot find group's GID - ")
        (P.egid s)

  -- What is done once the file is decoded.
  unfoldable pub finish_resource :
      Config P → StoreClient P → ResourceFields → P.State → Result (TemplateResource P)
  finish_resource config client f s =
      if same f.src []
      then err (codes "empty src template")
      else (do uid ← user_id f s; gid ← group_id f s; ok (resource_of config client f uid gid))

  -- `NewTemplateResource`
  unfoldable pub new_template_resource : Text → Config P → P.State → Result (TemplateResource P)
  new_template_resource path config s = elim config.store_client [
    | none ↦ err (codes "A valid StoreClient is required.")
    | some client ↦ do
      fields ←
          map_error (λ e. codes "Cannot process template resource " ++ (path ++ (codes " - " ++ e)))
            (P.decode_toml path unset_fields s)
      finish_resource config client fields s
  ]
