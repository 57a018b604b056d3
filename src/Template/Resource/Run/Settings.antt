-- ===== src/Template/Resource/Run/Settings.antt =====
-- What the steps of `process` leave as it is in the resource.
use confd.Prelude.{
  ℕ, ◌≡◌, refl, ◌∙◌, Bool, true, false, not, Option, none, some, ◌++◌, if◌then◌else◌,
}
use confd.Std.Text.{Text, codes}
use confd.Std.Dict.{Dict}
use confd.Std.Result.{Result, ok, err}
use confd.Std.Exec.{>>=_cases, ◌>>◌}
use confd.Util.Files.{is_file_exist}
use confd.Platform.{Platform, StoreClient}
use confd.Template.Resource.{TemplateResource, World}
use confd.Template.Resource.Vars.{fill_store, set_vars, choose_mode, store_mode, set_file_mode}
use confd.Template.Resource.Stage.{set_stage_file, stage, stage_parsed, create_stage_file}
use confd.Template.Resource.Sync.{sync_with, sync}
use confd.Template.Resource.Run.{process}

-- The settings of a resource that its methods read and never write.
abbrev pub Settings : Platform → Type 0
Settings P = Bool × Bool × Text × StoreClient P × ℕ × Text × Text

abbrev pub settings : {P : Platform} → TemplateResource P → Settings P
settings t = (t.noop, t.sync_only, t.dest, t.store_client, t.last_index, t.prefix, t.src)

module _ (P : Platform) where
  abbrev pub Outcome : Type 0
  Outcome = Result (Unit {0}) × World P

  pub set_file_mode-settings :
      (w : World P) → settings (set_file_mode P w).1.resource ≡ settings w.resource
  unfolding set_file_mode store_mode
  set_file_mode-settings w = go (choose_mode P w.resource w.outside)
    where
      go : (r : Result ℕ) → settings (store_mode P w r).1.resource ≡ settings w.resource
      go (ok m) = refl
      go (err e) = refl

  pub set_file_mode-outside : (w : World P) → (set_file_mode P w).1.outside ≡ w.outside
  unfolding set_file_mode store_mode
  set_file_mode-outside w = go (choose_mode P w.resource w.outside)
    where
      go : (r : Result ℕ) → (store_mode P w r).1.outside ≡ w.outside
      go (ok m) = refl
      go (err e) = refl

  pub fill_store-settings :
      (w : World P) (r : Result (Dict Text) × P.State)
      → settings (fill_store P w r).1.resource ≡ settings w.resource
  unfolding fill_store
  fill_store-settings w (ok m, s) = refl
  fill_store-settings w (err e, s) = refl

  pub fill_store-outside :
      (w : World P) (r : Result (Dict Text) × P.State) → (fill_store P w r).1.outside ≡ r.1
  unfolding fill_store
  fill_store-outside w (ok m, s) = refl
  fill_store-outside w (err e, s) = refl

  pub set_stage_file-settings :
      (w : World P) (r : Result Text × P.State)
      → settings (set_stage_file P w r).1.resource ≡ settings w.resource
  unfolding set_stage_file
  set_stage_file-settings w (ok temp, s) = refl
  set_stage_file-settings w (err e, s) = refl

  pub create_stage_file-settings :
      (w : World P) → settings (create_stage_file P w).1.resource ≡ settings w.resource
  unfolding create_stage_file stage_parsed
  create_stage_file-settings w =
      go (not (is_file_exist P w.resource.src w.outside))
        (P.parse_template w.resource.src w.outside)
    where
      go :
          (b : Bool) (r : Result P.Template)
          → settings
              (let out : Outcome =
                  if b
                  then (err (codes "Missing template: " ++ w.resource.src), w)
                  else stage_parsed P r w in
                out).1.resource
            ≡ settings w.resource
      go true r = refl
      go false (ok tmpl) = set_stage_file-settings w (stage P w.resource tmpl w.outside)
      go false (err e) = refl

  pub set_vars-settings : (w : World P) → settings (set_vars P w).1.resource ≡ settings w.resource
  unfolding set_vars
  set_vars-settings w = fill_store-settings w _

  pub sync-settings : (w : World P) → settings (sync P w).1.resource ≡ settings w.resource
  unfolding sync sync_with
  sync-settings w = go w.resource.stage_file
    where
      go : (o : Option Text) → settings (sync_with P o w).1.resource ≡ settings w.resource
      go none = refl
      go (some temp) = refl

  -- A run changes neither the settings of its resource nor the index at which it is watched.
  pub process-settings : (w : World P) → settings (process P w).1.resource ≡ settings w.resource
  unfolding process
  process-settings w =
      >>=_cases Same (set_file_mode P) _ w
        (λ _ _.
          >>=_cases Same (set_vars P) (λ _. create_stage_file P >> sync P) w₁
            (λ _ _.
              >>=_cases Same (create_stage_file P) (λ _. sync P) w₂
                (λ _ _. sync-settings w₃ ∙ same₃) (λ _ _. same₃))
            (λ _ _. same₂))
        (λ _ _. same₁)
    where
      Same : Outcome → Type 0
      Same r = settings r.1.resource ≡ settings w.resource

      w₁ : World P
      w₁ = (set_file_mode P w).1

      w₂ : World P
      w₂ = (set_vars P w₁).1

      w₃ : World P
      w₃ = (create_stage_file P w₂).1

      same₁ : settings w₁.resource ≡ settings w.resource
      same₁ = set_file_mode-settings w

      same₂ : settings w₂.resource ≡ settings w.resource
      same₂ = set_vars-settings w₁ ∙ same₁

      same₃ : settings w₃.resource ≡ settings w.resource
      same₃ = create_stage_file-settings w₂ ∙ same₂
