-- ===== src/Template/Resource/Sync/Outcomes.antt =====
-- What `sync` does on each of its branches.
use confd.Prelude.{◌≡◌, refl, true, false, ◌++◌, arith, ◌⊎◌, inl, inr, ◌≢◌, ◌∙◌, Bool-cases}
use confd.Std.Text.{is_set, Text, codes, contains}
use confd.Std.Result.{Result, Error, ok, err}
use confd.Util.Files.{is_config_changed}
use confd.Platform.{Platform}
use confd.Platform.Laws.{FileModel}
use confd.Template.Resource.Sync.Frame.{clean_up-other}
use confd.Template.Resource.{TemplateResource}
use confd.Template.Resource.Sync.{
  check, check_first, after_rename, overwrite, update, clean_up, sync_body, sync_staged,
}

module _ (P : Platform) (t : TemplateResource P) (staged : Text) (s : P.State) where
  -- In noop mode, and where the two files agree, `sync` succeeds, runs no command and writes
  -- nothing: only the staged file is removed, unless it is to be kept.
  pub sync_idle :
      (t.noop ≡ true) ⊎ ((is_config_changed P staged t.dest s).0 ≡ false)
      → sync_staged P t staged s ≡ (ok tt, clean_up P t staged s)
  unfolding sync_staged sync_body
  sync_idle (inl h) = simp h refl
  sync_idle (inr h) = ground arith

  -- Where the check passes or there is none, the rename fails and the target is no mount, the
  -- error of the rename is returned and nothing is reloaded.
  pub sync_rename_failed :
      (e : Error) (s₁ s₂ : P.State)
      → t.noop ≡ false
      → (is_config_changed P staged t.dest s).0 ≡ true
      → check_first P t staged s ≡ (ok tt, s₁)
      → P.rename staged t.dest s₁ ≡ (err e, s₂)
      → contains e (codes "device or resource busy") ≡ false
      → sync_staged P t staged s ≡ (err e, clean_up P t staged s₂)
  unfolding sync_staged sync_body update overwrite after_rename
  sync_rename_failed e s₁ s₂ n d c k b = simp (n, d, c, k, b) refl

module _ (P : Platform) (M : FileModel P) (t : TemplateResource P) (staged : Text)
    (s : P.State) where
  -- The result of a `sync` whose check does not pass.
  abbrev pub IsRefused : Error → Result (Unit {0}) → Type 0
  IsRefused e r =
      (r ≡ err (codes "Config check failed: " ++ e))
      ⊎ ((r ≡ ok tt) × ((t.noop ≡ true) ⊎ ((is_config_changed P staged t.dest s).0 ≡ false)))

  update-check_failed :
      (e : Error)
      → t.sync_only ≡ false
      → is_set t.check_cmd ≡ true
      → (check P t staged s).0 ≡ err e
      → update P t staged s ≡ (err (codes "Config check failed: " ++ e), (check P t staged s).1)
  unfolding update check_first
  update-check_failed e o c k = simp (o, c, k) refl

  -- A resource has a check command that is in use, and the command fails on the staged file and
  -- leaves the destination alone. Then `sync` leaves the destination as it was, and it fails with
  -- the error of the check, unless there was nothing to do, in noop mode or with equal files. The
  -- staged file is not the destination itself.
  pub sync_staged-check :
      (e : Error)
      → staged ≢ t.dest
      → t.sync_only ≡ false
      → is_set t.check_cmd ≡ true
      → (check P t staged s).0 ≡ err e
      → M.file t.dest (check P t staged s).1 ≡ M.file t.dest s
      → (M.file t.dest (sync_staged P t staged s).1 ≡ M.file t.dest s)
        × IsRefused e (sync_staged P t staged s).0
  unfolding sync_staged sync_body
  sync_staged-check e apart o c k f =
      let refused = update-check_failed e o c k in
      let clean = clean_up-other P M t staged t.dest in
      elim (Bool-cases t.noop) [
        | inl n ↦ simp n (clean s apart, inr (refl, inl refl))
        | inr n ↦ elim (Bool-cases (is_config_changed P staged t.dest s).0) [
          | inl d ↦ simp (n, d, refused) (clean _ apart ∙ f, inl refl)
          | inr d ↦ simp (n, d) (clean s apart, inr (refl, inr refl))
        ]
      ]
