-- ===== src/Template/Resource/Run/Keeps.antt =====
-- Which files a whole run of `process` leaves alone.
use confd.Prelude.{◌≡◌, sym, ap, ◌∙◌, ◌≢◌, true, some, List, ◌⊎◌, inl, inr}
use confd.Std.Text.{Text}
use confd.Std.Result.{Result, ok, err}
use confd.Std.Exec.{>>=_cases, ◌>>◌}
use confd.Platform.{Platform, File, StoreClient}
use confd.Platform.Laws.{FileModel}
use confd.Template.Resource.{TemplateResource, World}
use confd.Template.Resource.Vars.{set_vars, set_file_mode}
use confd.Template.Resource.Stage.{create_stage_file}
use confd.Template.Resource.Stage.Frame.{
  create_stage_file-file, create_stage_file-NamesFresh, NamesFresh, IsFreshFor,
}
use confd.Template.Resource.Sync.{sync_with, sync}
use confd.Template.Resource.Sync.Frame.{sync_staged-other}
use confd.Template.Resource.Run.{process}
use confd.Template.Resource.Run.Settings.{
  Settings, settings, Outcome, set_file_mode-settings, set_file_mode-outside, fill_store-outside,
  create_stage_file-settings, set_vars-settings,
}

-- A backend whose reads change no file.
pub record IsQuiet {P : Platform} (M : FileModel P) (c : StoreClient P) : Type 0 where
  pub get_values-file :
      (keys : List Text) (s : P.State) (q : Text) → M.file q (c.get_values keys s).1 ≡ M.file q s

module _ (P : Platform) (M : FileModel P) where
  pub set_vars-outside :
      (w : World P) (q : Text)
      → IsQuiet M w.resource.store_client
      → M.file q (set_vars P w).1.outside ≡ M.file q w.outside
  unfolding set_vars
  set_vars-outside w q quiet =
      ap (M.file q) (fill_store-outside P w _) ∙ quiet.get_values-file _ w.outside q

  -- The runs in which `sync` may not touch the file.
  abbrev pub Calm : TemplateResource P → Text → Type 0
  Calm t q = (t.noop ≡ true) ⊎ ((t.sync_only ≡ true) × (t.dest ≢ q))

  pub Calm-settings :
      (t u : TemplateResource P) (q : Text) → settings u ≡ settings t → Calm t q → Calm u q
  Calm-settings t u q e (inl n) = inl (ap (λ (x : Settings P). x.0) e ∙ n)
  Calm-settings t u q e (inr (o, d)) =
      inr (ap (λ (x : Settings P). x.1) e ∙ o, λ k. d (sym (ap (λ (x : Settings P). x.2) e) ∙ k))

  pub sync-file :
      (w : World P) (temp q : Text)
      → w.resource.stage_file ≡ some temp
      → temp ≢ q
      → Calm w.resource q
      → M.file q (sync P w).1.outside ≡ M.file q w.outside
  unfolding sync sync_with
  sync-file w temp q e apart calm =
      simp e (sync_staged-other P M w.resource temp q w.outside apart calm)

  -- The last two steps.
  stage_and_sync-file :
      (w : World P) (q : Text) (f : File)
      → Calm w.resource q
      → M.file q w.outside ≡ some f
      → M.file q ((create_stage_file P >> sync P) w).1.outside ≡ some f
  stage_and_sync-file w q f calm h =
      >>=_cases (λ (r : Outcome P). M.file q r.1.outside ≡ some f) (create_stage_file P)
        (λ _. sync P) w
        (λ _ e.
          let (temp, named, fresh) =
            go (create_stage_file P w).0 (create_stage_file P w).1 e
              (create_stage_file-NamesFresh P M w q) in
          sync-file (create_stage_file P w).1 temp q named (fresh f h) (
            Calm-settings w.resource (create_stage_file P w).1.resource q
              (create_stage_file-settings P w) calm)
          ∙ create_stage_file-file P M w q f h)
        (λ _ _. create_stage_file-file P M w q f h)
    where
      go :
          (r : Result (Unit {0})) (w' : World P)
          → r ≡ ok tt
          → NamesFresh P M w q (r, w')
          → (temp : Text) × (w'.resource.stage_file ≡ some temp) × IsFreshFor P M temp w.outside q
      go (ok _) w' e n = n
      go (err x) w' e n = cc

  -- Where reading from the backend changes no file, `process` on a resource in noop mode changes
  -- no file that was there, whether it succeeds or not. Nor does it on a resource that is set to
  -- sync only, and so runs no command, for any file but the destination.
  pub process-file :
      (w : World P) (q : Text) (f : File)
      → IsQuiet M w.resource.store_client
      → (w.resource.noop ≡ true) ⊎ ((w.resource.sync_only ≡ true) × (w.resource.dest ≢ q))
      → M.file q w.outside ≡ some f
      → M.file q (process P w).1.outside ≡ some f
  unfolding process
  process-file w q f quiet calm h =
      >>=_cases Keeps (set_file_mode P) _ w
        (λ _ _.
          >>=_cases Keeps (set_vars P) (λ _. create_stage_file P >> sync P) w₁
            (λ _ _.
              stage_and_sync-file (set_vars P w₁).1 q f
                (Calm-settings w.resource (set_vars P w₁).1.resource q
                  (set_vars-settings P w₁ ∙ set_file_mode-settings P w) calm)
                kept₂)
            (λ _ _. kept₂))
        (λ _ _. kept₁)
    where
      Keeps : Outcome P → Type 0
      Keeps r = M.file q r.1.outside ≡ some f

      w₁ : World P
      w₁ = (set_file_mode P w).1

      quiet₁ : IsQuiet M w₁.resource.store_client
      quiet₁ = rw (ap (λ (x : Settings P). x.3) (set_file_mode-settings P w)) quiet

      kept₁ : M.file q w₁.outside ≡ some f
      kept₁ = ap (M.file q) (set_file_mode-outside P w) ∙ h

      kept₂ : M.file q (set_vars P w₁).1.outside ≡ some f
      kept₂ = set_vars-outside w₁ q quiet₁ ∙ kept₁
