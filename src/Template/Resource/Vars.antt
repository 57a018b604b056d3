-- ===== src/Template/Resource/Vars.antt =====
-- `setVars` and `setFileMode`.
pub mod Contents
use confd.Prelude.{
  ℕ, ◌≡◌, refl, Bool, true, false, Option, none, some, List, [], ◌∷◌, ◌++◌, if◌then◌else◌,
}
use confd.Std.Text.{Text, codes, trim_prefix}
use confd.Std.Result.{Error, Result, ok, err, ◌>>=◌}
use confd.Std.Exec
use confd.Std.Dict.{Dict}
use confd.Std.Path.{slash, path_join}
use confd.Std.Strconv.{parse_uint}
use confd.Util.{append_prefix}
use confd.Util.Files.{is_file_exist}
use confd.Platform.{Platform, Stat, found, missing, failed}
use confd.Template.Resource.{TemplateResource, World, Method}

-- The name under which a key of the backend is stored, without the prefix.
unfoldable pub store_key : Text → Text → Text
store_key prefix k = path_join ((slash ∷ []) ∷ trim_prefix k prefix ∷ [])

module _ (P : Platform) where
  -- The loop over the result of `GetValues`.
  unfoldable pub set_all : Text → Dict Text → P.Store → P.Store
  set_all prefix [] store = store
  set_all prefix ((k, v) ∷ result) store =
      set_all prefix result (P.store_set (store_key prefix k) v store)

  unfoldable pub fill_store : World P → Result (Dict Text) × P.State → Result (Unit {0}) × World P
  fill_store w (err e, s) = (err e, record w { outside = s })
  fill_store w (ok result, s) = (
    ok tt,
    record {
      resource = record (w.resource) {
        store = set_all w.resource.prefix result (P.purge w.resource.store);
      };
      outside = s;
    },
  )

  -- `setVars`
  unfoldable pub set_vars : Method P
  set_vars w =
      let t = w.resource in
      fill_store w (t.store_client.get_values (append_prefix t.prefix t.keys) w.outside)

  unfoldable pub choose_mode : TemplateResource P → P.State → Result ℕ
  choose_mode t s = elim t.mode [
    | [] ↦
        if is_file_exist P t.dest s
        then elim (P.stat t.dest s) [ found m ↦ ok m | missing ↦ err [] | failed e ↦ err e ]
        else ok 420
    | c ∷ text ↦ parse_uint (c ∷ text) 32
  ]

  unfoldable pub store_mode : World P → Result ℕ → Result (Unit {0}) × World P
  store_mode w (ok m) = (ok tt, record w { resource = record (w.resource) { file_mode = m } })
  store_mode w (err e) = (err e, w)

  -- `setFileMode`
  unfoldable pub set_file_mode : Method P
  set_file_mode w = store_mode w (choose_mode w.resource w.outside)
