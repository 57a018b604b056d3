-- ===== src/Template/Processor.antt =====
-- pkg/template/processor.go: loading the resources, and running all of them once.
pub mod Once
pub mod Interval
pub mod Watch
pub mod Watching
pub mod Succeeds
pub mod Together
use confd.Prelude.{
  ℕ, ◌≡◌, refl, Bool, true, false, not, Option, none, some, List, [], ◌∷◌, ◌++◌, if◌then◌else◌,
}
use confd.Std.Text.{Text, codes}
use confd.Std.Result.{Error, Result, ok, err}
use confd.Util.Files.{is_file_exist}
use confd.Util.Lookup.{recursive_files_lookup}
use confd.Platform.{Platform}
use confd.Template.Resource.{Config, TemplateResource, World}
use confd.Template.Resource.Load.{new_template_resource}
use confd.Template.Resource.Run.{process}

-- The error of a call, if any.
abbrev pub error_of {ℓ} : {A : Type ℓ} → Result A → Option Error
error_of (ok a) = none
error_of (err e) = some e

-- `if err != nil { lastErr = err }`
abbrev pub latest : Option Error → Option Error → Option Error
latest last none = last
latest last (some e) = some e

module _ (P : Platform) where
  abbrev pub Resources : Type 0
  Resources = List (TemplateResource P)

  -- One iteration of the loop over the paths: the templates so far and the last error.
  unfoldable pub load_step :
      Resources × Option Error → Result (TemplateResource P) → Resources × Option Error
  load_step (templates, last) (ok t) = (templates ++ t ∷ [], last)
  load_step (templates, last) (err e) = (templates, some e)

  -- The loop over the paths.
  unfoldable pub load_all :
      Config P → List Text → Resources × Option Error → P.State → Resources × Option Error
  load_all config [] loaded s = loaded
  load_all config (path ∷ paths) loaded s =
      load_all config paths (load_step loaded (new_template_resource P path config s)) s

  unfoldable pub load_found : Config P → Result (List Text) → P.State → Resources × Option Error
  load_found config (err e) s = ([], some e)
  load_found config (ok paths) s = load_all config paths ([], none) s

  -- `getTemplateResources`: its two results.
  unfoldable pub get_template_resources : Config P → P.State → Resources × Option Error
  get_template_resources config s =
      if not (is_file_exist P config.conf_dir s)
      then ([], none)
      else load_found config (recursive_files_lookup P config.config_dir (codes "*toml") s) s

  -- The loop of `process`, with the last error so far.
  unfoldable pub process_from : Option Error → Resources → P.State → Option Error × P.State
  process_from last [] s = (last, s)
  process_from last (t ∷ ts) s =
      let (r, w) = process P (record { resource = t; outside = s }) in
      process_from (latest last (error_of r)) ts w.outside

  -- `process`
  unfoldable pub process_all : Resources → P.State → Option Error × P.State
  process_all ts s = process_from none ts s

  unfoldable pub process_loaded : Resources × Option Error → P.State → Option Error × P.State
  process_loaded (ts, some e) s = (some e, s)
  process_loaded (ts, none) s = process_all ts s

  -- `Process`
  unfoldable pub process_once : Config P → P.State → Option Error × P.State
  process_once config s = process_loaded (get_template_resources config s) s
