-- ===== src/Template/Resource/Stage/Written.antt =====
-- What `CreateStageFile` writes.
use confd.Prelude.{◌≡◌, refl, ◌∙◌, ◌≢◌, not, some, ◌++◌, Bool-cases, inl, inr}
use mathlib.Core.Path.{subst}
use confd.Std.Text.{Text, codes}
use confd.Std.Result.{Result, ok, err}
use confd.Std.Exec.{>>=_cases}
use confd.Std.Path.{path_dir, path_base}
use confd.Util.Files.{is_file_exist}
use confd.Platform.{Platform, File}
use confd.Platform.Laws.{FileModel, RenderModel}
use confd.Template.Resource.{TemplateResource, World}
use confd.Template.Resource.Stage.{
  finish_stage, stage, set_stage_file, stage_parsed, create_stage_file,
}

module _ (P : Platform) (M : FileModel P) (R : RenderModel P M) where
  -- A file of a text.
  abbrev pub Contains : Text → Text → P.State → Type 0
  Contains n text s = (f : File) × (M.file n s ≡ some f) × (f.contents ≡ text)

  finish_stage-Contains :
      (t : TemplateResource P) (temp n text : Text) (r : Result (Unit {0})) (s : P.State)
      → (r ≡ ok tt → Contains temp text s)
      → (finish_stage P t temp (r, s)).0 ≡ ok n
      → (temp ≡ n) × Contains temp text (finish_stage P t temp (r, s)).1
  unfolding finish_stage
  finish_stage-Contains t temp n text (err e) s h k = cc
  finish_stage-Contains t temp n text (ok _) s h k =
      let (f, e, c) = h refl in
      let (f₁, e₁, c₁) = R.chmod_contents temp t.file_mode s f e in
      let (f₂, e₂, c₂) = M.chown_contents temp t.uid t.gid _ f₁ e₁ in (cc, (f₂, e₂, c₂ ∙ c₁ ∙ c))

  -- The temporary files made for a destination are other files.
  abbrev pub Beside : Text → Type 0
  Beside dest =
      (n : Text) (s : P.State)
      → (P.temp_file (path_dir dest) (codes "." ++ path_base dest) s).0 ≡ ok n
      → n ≢ dest

  abbrev Staged : TemplateResource P → P.Template → Text → P.State → Type 0
  Staged t tmpl n s = (n ≢ t.dest) × Contains n (R.rendered tmpl t.store) s

  -- The state after a run into the temporary file.
  abbrev stage_end : TemplateResource P → P.Template → Text → P.State → P.State
  stage_end t tmpl temp s =
      let (r, s') = P.temp_file (path_dir t.dest) (codes "." ++ path_base t.dest) s in
      (finish_stage P t temp (P.execute tmpl t.store temp s')).1

  stage-Staged :
      (t : TemplateResource P) (tmpl : P.Template) (s : P.State) (n : Text)
      → Beside t.dest
      → (stage P t tmpl s).0 ≡ ok n
      → Staged t tmpl n (stage P t tmpl s).1
  unfolding stage
  stage-Staged t tmpl s n beside =
      >>=_cases (λ (r : Result Text × P.State). r.0 ≡ ok n → Staged t tmpl n r.1)
        (P.temp_file (path_dir t.dest) (codes "." ++ path_base t.dest)) _ s
        (λ temp e h.
          let (f, there, empty) = R.temp_empty _ _ temp s e in
          let (same, written) =
            finish_stage-Contains t temp n (R.rendered tmpl t.store) _ _
              (R.execute_ok tmpl t.store temp _ f there empty) h in
          (
            λ k. beside temp s e (same ∙ k),
            subst (λ p. Contains p (R.rendered tmpl t.store) (stage_end t tmpl temp s)) same
                written,
          ))
        (λ e k h. cc)

  -- The stage file of a resource, the template parsed from its source and the text it was given.
  abbrev pub Filled : World P → World P → Type 0
  Filled w w' =
      (tmpl : P.Template) × (P.parse_template w.resource.src w.outside ≡ ok tmpl)
      × ((n : Text) × (w'.resource.stage_file ≡ some n) × Staged w.resource tmpl n w'.outside)

  set_stage_file-Filled :
      (w : World P) (tmpl : P.Template)
      → P.parse_template w.resource.src w.outside ≡ ok tmpl
      → (r : Result Text × P.State) → ((n : Text) → r.0 ≡ ok n → Staged w.resource tmpl n r.1)
      → (set_stage_file P w r).0 ≡ ok tt
      → Filled w (set_stage_file P w r).1
  unfolding set_stage_file
  set_stage_file-Filled w tmpl p (ok n, s) h k = (tmpl, p, (n, refl, h n refl))
  set_stage_file-Filled w tmpl p (err e, s) h k = cc

  stage_parsed-Filled :
      (w : World P) (parsed : Result P.Template)
      → P.parse_template w.resource.src w.outside ≡ parsed
      → Beside w.resource.dest
      → (stage_parsed P parsed w).0 ≡ ok tt
      → Filled w (stage_parsed P parsed w).1
  unfolding stage_parsed
  stage_parsed-Filled w (err e) p beside h = cc
  stage_parsed-Filled w (ok tmpl) p beside h =
      set_stage_file-Filled w tmpl p (stage P w.resource tmpl w.outside)
        (λ n. stage-Staged w.resource tmpl w.outside n beside) h

  -- Where it returns no error, the stage file is another file than the destination, and holds what
  -- the template prints over the store.
  pub create_stage_file-Filled :
      (w : World P)
      → Beside w.resource.dest
      → (create_stage_file P w).0 ≡ ok tt
      → Filled w (create_stage_file P w).1
  unfolding create_stage_file
  create_stage_file-Filled w beside =
      elim (Bool-cases (not (is_file_exist P w.resource.src w.outside))) [
        | inl e ↦ rw e (λ h. cc)
        | inr e ↦
            rw e (stage_parsed-Filled w (P.parse_template w.resource.src w.outside) refl beside)
      ]
