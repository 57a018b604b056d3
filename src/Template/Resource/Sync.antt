-- ===== src/Template/Resource/Sync.antt =====
-- `sync`, `check`, `reload` and `runCommand`.
pub mod Outcomes
pub mod Frame
pub mod Again
use confd.Prelude.{
  ℕ, ◌≡◌, refl, Bool, true, false, not, ◌&&◌, Option, none, some, List, [], ◌∷◌, ◌++◌,
  if◌then◌else◌,
}
use confd.Std.Text.{is_set, Text, codes, contains}
use confd.Std.Result.{Error, Result, ok, err, map_error}
use confd.Std.Exec.{Exec, pure, raise, continue, ◌>>=◌, ◌>>◌}
use confd.Util.Files.{is_config_changed}
use confd.Platform.{Platform}
use confd.Template.Resource.{TemplateResource, World, Method}

module _ (P : Platform) where
  -- `runCommand`, with the shell of Unix.
  unfoldable pub run_command : Text → Exec P.State (Unit {0})
  run_command cmd = P.run_command cmd

  -- `check`: the command with the name of the staged file put in for `src`.
  unfoldable pub check : TemplateResource P → Text → Exec P.State (Unit {0})
  check t staged s = elim (P.render_command t.check_cmd staged) [
    | ok cmd ↦ run_command cmd s
    | err e ↦ (err e, s)
  ]

  -- `reload`
  unfoldable pub reload : TemplateResource P → Exec P.State (Unit {0})
  reload t = run_command t.reload_cmd

  -- The check before the destination is overwritten.
  unfoldable pub check_first : TemplateResource P → Text → Exec P.State (Unit {0})
  check_first t staged s =
      if not t.sync_only && is_set t.check_cmd
      then (let (r, s') = check t staged s in
          (map_error (λ e. codes "Config check failed: " ++ e) r, s'))
      else (ok tt, s)

  -- The destination is a mount: the contents are written into it, and then its owner is set
  -- whether or not the write failed.
  pub write_through : TemplateResource P → Text → Exec P.State (Unit {0})
  write_through t staged s = elim (P.read_file staged s) [
    | err e ↦ (err e, s)
    | ok contents ↦
        let (r, s') = P.write_file t.dest contents t.file_mode s in
        (r, P.chown t.dest t.uid t.gid s')
  ]

  unfoldable pub after_rename :
      TemplateResource P → Text → Result (Unit {0}) × P.State → Result (Unit {0}) × P.State
  after_rename t staged (ok _, s) = (ok tt, s)
  after_rename t staged (err e, s) =
      if contains e (codes "device or resource busy") then write_through t staged s else (err e, s)

  unfoldable pub overwrite : TemplateResource P → Text → Exec P.State (Unit {0})
  overwrite t staged s = after_rename t staged (P.rename staged t.dest s)

  unfoldable pub reload_after : TemplateResource P → Exec P.State (Unit {0})
  reload_after t s = if not t.sync_only && is_set t.reload_cmd then reload t s else (ok tt, s)

  -- What `sync` does where the two files differ.
  unfoldable pub update : TemplateResource P → Text → Exec P.State (Unit {0})
  update t staged = do check_first t staged; overwrite t staged; reload_after t

  -- The deferred removal of the staged file.
  unfoldable pub clean_up : TemplateResource P → Text → P.State → P.State
  clean_up t staged s = if t.keep_stage_file then s else P.remove staged s

  -- An error of the comparison is logged, and the files count as different.
  unfoldable pub sync_body : TemplateResource P → Text → Exec P.State (Unit {0})
  sync_body t staged s =
      if t.noop
      then (ok tt, s)
      else if (is_config_changed P staged t.dest s).0
      then update t staged s
      else (ok tt, s)

  unfoldable pub sync_staged : TemplateResource P → Text → Exec P.State (Unit {0})
  sync_staged t staged s = let (r, s') = sync_body t staged s in (r, clean_up t staged s')

  -- `sync` with the staged file. Without one Go panics; `process` always has one.
  unfoldable pub sync_with : Option Text → Method P
  sync_with none w = (err (codes "panic: no staged file"), w)
  sync_with (some staged) w =
      let (r, s) = sync_staged w.resource staged w.outside in (r, record w { outside = s })

  -- `sync`
  unfoldable pub sync : Method P
  sync w = sync_with w.resource.stage_file w
