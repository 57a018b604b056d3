-- ===== src/Template/Resource/Run/Renders.antt =====
-- What a successful run of `process` leaves at the destination.
use confd.Prelude.{◌≡◌, sym, ap, ◌∙◌, ◌≢◌, true, false, some}
use mathlib.Core.Path.{subst}
use confd.Std.Text.{Text}
use confd.Std.Result.{ok}
use confd.Std.Exec.{>>=_cases, ◌>>◌}
use confd.Platform.{Platform}
use confd.Platform.Laws.{FileModel, RenderModel}
use confd.Template.Resource.{World}
use confd.Template.Resource.Vars.{set_vars, set_file_mode}
use confd.Template.Resource.Stage.{create_stage_file}
use confd.Template.Resource.Stage.Written.{Contains, Beside, create_stage_file-Filled}
use confd.Template.Resource.Sync.{sync_with, sync}
use confd.Template.Resource.Sync.Frame.{Holds, sync_staged-Holds}
use confd.Template.Resource.Run.{process}
use confd.Template.Resource.Run.Settings.{
  Settings, settings, Outcome, set_file_mode-settings, set_vars-settings,
  create_stage_file-settings,
}

module _ (P : Platform) (M : FileModel P) (R : RenderModel P M) where
  sync-Holds :
      (w : World P) (n text : Text)
      → w.resource.noop ≡ false
      → w.resource.sync_only ≡ true
      → w.resource.stage_file ≡ some n
      → n ≢ w.resource.dest
      → Contains P M R n text w.outside
      → (sync P w).0 ≡ ok tt
      → Holds P M w.resource text (sync P w).1.outside
  unfolding sync sync_with
  sync-Holds w n text noop only staged apart (g, e, c) = simp staged (λ h.
      let (f, there, same) = sync_staged-Holds P M w.resource n w.outside g noop only apart e h in
      (f, there, same ∙ ap P.md5 c))

  -- The destination holds what a template prints over a store.
  abbrev pub Renders : World P → World P → P.State → Type 0
  Renders w filled s =
      (tmpl : P.Template) × (P.parse_template w.resource.src filled.outside ≡ ok tmpl)
      × Holds P M w.resource (R.rendered tmpl filled.resource.store) s

  Renders-settings :
      {s : P.State} (w v filled : World P)
      → settings v.resource ≡ settings w.resource
      → Renders v filled s
      → Renders w filled s
  Renders-settings {s} w v filled kept (tmpl, p, (f, there, same)) = (
    tmpl,
    ap (λ (x : Settings P). P.parse_template x.6 filled.outside) (sym kept) ∙ p,
    (f, ap (λ (x : Settings P). M.file x.2 s) (sym kept) ∙ there, same),
  )

  stage_and_sync-Renders :
      (w : World P)
      → w.resource.noop ≡ false
      → w.resource.sync_only ≡ true
      → Beside P M R w.resource.dest
      → ((create_stage_file P >> sync P) w).0 ≡ ok tt
      → Renders w w ((create_stage_file P >> sync P) w).1.outside
  stage_and_sync-Renders w noop only beside =
      >>=_cases (λ (r : Outcome P). r.0 ≡ ok tt → Renders w w r.1.outside) (create_stage_file P)
        (λ _. sync P) w
        (λ _ e h.
          let (tmpl, p, (n, staged, (apart, filled))) = create_stage_file-Filled P M R w beside e in
          let kept = create_stage_file-settings P w in
          let dest_kept = ap (λ (x : Settings P). x.2) kept in
          let (f, there, same) =
            sync-Holds (create_stage_file P w).1 n (R.rendered tmpl w.resource.store)
              (ap (λ (x : Settings P). x.0) kept ∙ noop) (ap (λ (x : Settings P). x.1) kept ∙ only)
              staged (λ k. apart (k ∙ dest_kept)) filled h in
          (
            tmpl,
            p,
            (
              f,
              ap (λ d. M.file d (sync P (create_stage_file P w).1).1.outside) (sym dest_kept)
                  ∙ there,
              same,
            ),
          ))
        (λ e k h. cc)

  -- After a run of `process` without an error, of a resource that runs no command and is not in
  -- noop mode, the destination is a file whose contents have the digest of what the template of the
  -- resource prints over the values that `setVars` stored. The temporary files made for the
  -- destination are other files than it, and the template prints a text of the store alone.
  pub process-Renders :
      (w : World P)
      → w.resource.noop ≡ false
      → w.resource.sync_only ≡ true
      → Beside P M R w.resource.dest
      → (process P w).0 ≡ ok tt
      → Renders w (set_vars P (set_file_mode P w).1).1 (process P w).1.outside
  unfolding process
  process-Renders w noop only beside =
      >>=_cases Goal (set_file_mode P) _ w
        (λ _ _.
          >>=_cases Goal (set_vars P) (λ _. create_stage_file P >> sync P) w₁
            (λ _ _ h. Renders-settings w w₂ w₂ kept (
              stage_and_sync-Renders w₂ (ap (λ (x : Settings P). x.0) kept ∙ noop)
                (ap (λ (x : Settings P). x.1) kept ∙ only)
                (subst (Beside P M R) (sym (ap (λ (x : Settings P). x.2) kept)) beside) h))
            (λ e k h. cc))
        (λ e k h. cc)
    where
      w₁ : World P
      w₁ = (set_file_mode P w).1

      w₂ : World P
      w₂ = (set_vars P w₁).1

      Goal : Outcome P → Type 0
      Goal r = r.0 ≡ ok tt → Renders w w₂ r.1.outside

      kept : settings w₂.resource ≡ settings w.resource
      kept = set_vars-settings P w₁ ∙ set_file_mode-settings P w
