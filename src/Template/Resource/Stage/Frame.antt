-- ===== src/Template/Resource/Stage/Frame.antt =====
-- Which files `CreateStageFile` leaves alone.
use confd.Prelude.{◌≡◌, refl, ◌∙◌, ◌≢◌, not, none, some, ◌++◌, Bool-cases, inl, inr}
use confd.Std.Text.{Text, codes}
use confd.Std.Result.{Result, ok, err}
use confd.Std.Exec.{>>=_cases}
use confd.Std.Path.{path_dir, path_base}
use confd.Util.Files.{is_file_exist}
use confd.Platform.{Platform, File}
use confd.Platform.Laws.{FileModel}
use confd.Template.Resource.{TemplateResource, World}
use confd.Template.Resource.Stage.{
  finish_stage, stage, set_stage_file, stage_parsed, create_stage_file,
}

-- A text that names a file and one that names none differ.
pub ne_of_file :
    {P : Platform} (M : FileModel P) (s : P.State) (n q : Text) (f : File)
    → M.file n s ≡ none
    → M.file q s ≡ some f
    → n ≢ q
ne_of_file M s n q f h k e = cc (k, h, e)

module _ (P : Platform) (M : FileModel P) where
  finish_stage-other :
      (t : TemplateResource P) (temp q : Text) (r : Result (Unit {0})) (s : P.State)
      → temp ≢ q
      → M.file q (finish_stage P t temp (r, s)).1 ≡ M.file q s
  unfolding finish_stage
  finish_stage-other t temp q (ok _) s h =
      M.chown_other temp q t.uid t.gid _ h ∙ M.chmod_other temp q t.file_mode s h
  finish_stage-other t temp q (err e) s h = M.remove_other temp q s h

  -- Whatever comes of it, a file that was there is as it was.
  pub stage-file :
      (t : TemplateResource P) (tmpl : P.Template) (s : P.State) (q : Text) (f : File)
      → M.file q s ≡ some f
      → M.file q (stage P t tmpl s).1 ≡ some f
  unfolding stage
  stage-file t tmpl s q f h =
      >>=_cases (λ (r : Result Text × P.State). M.file q r.1 ≡ some f)
        (P.temp_file (path_dir t.dest) (codes "." ++ path_base t.dest)) _ s
        (λ temp e.
          let apart = ne_of_file M s temp q f (M.temp_fresh _ _ temp s e) h in
          finish_stage-other t temp q _ _ apart
          ∙ M.execute_other tmpl t.store temp q _ apart
          ∙ M.temp_other _ _ temp q s e apart
          ∙ h)
        (λ e k. M.temp_err _ _ q e s k ∙ h)

  stage_parsed-file :
      (parsed : Result P.Template) (w : World P) (q : Text) (f : File)
      → M.file q w.outside ≡ some f
      → M.file q (stage_parsed P parsed w).1.outside ≡ some f
  unfolding stage_parsed set_stage_file
  stage_parsed-file (err e) w q f h = h
  stage_parsed-file (ok tmpl) w q f h =
      set_stage_file-outside (stage P w.resource tmpl w.outside)
      ∙ stage-file w.resource tmpl w.outside q f h
    where
      set_stage_file-outside :
          (r : Result Text × P.State) → M.file q (set_stage_file P w r).1.outside ≡ M.file q r.1
      set_stage_file-outside (ok temp, s) = refl
      set_stage_file-outside (err e, s) = refl

  -- Whatever comes of it, every file that was there is as it was.
  pub create_stage_file-file :
      (w : World P) (q : Text) (f : File)
      → M.file q w.outside ≡ some f
      → M.file q (create_stage_file P w).1.outside ≡ some f
  unfolding create_stage_file
  create_stage_file-file w q f h =
      elim (Bool-cases (not (is_file_exist P w.resource.src w.outside))) [
        | inl e ↦ rw e h
        | inr e ↦ rw e (stage_parsed-file (P.parse_template w.resource.src w.outside) w q f h)
      ]

  -- The staged file is new: its name is that of no file that was there.
  abbrev pub IsFreshFor : Text → P.State → Text → Type 0
  IsFreshFor temp s q = (f : File) → M.file q s ≡ some f → temp ≢ q

  abbrev pub NamesFresh : World P → Text → Result (Unit {0}) × World P → Type 0
  NamesFresh w q (ok _, w') =
      (temp : Text) × (w'.resource.stage_file ≡ some temp) × IsFreshFor temp w.outside q
  NamesFresh w q (err e, w') = Unit {0}

  set_stage_file-NamesFresh :
      (w : World P) (q : Text) (r : Result Text × P.State)
      → ((temp : Text) → r.0 ≡ ok temp → IsFreshFor temp w.outside q)
      → NamesFresh w q (set_stage_file P w r)
  unfolding set_stage_file
  set_stage_file-NamesFresh w q (ok temp, s) h = (temp, refl, h temp refl)
  set_stage_file-NamesFresh w q (err e, s) h = tt

  finish_stage-name :
      (t : TemplateResource P) (temp n : Text) (r : Result (Unit {0}) × P.State)
      → (finish_stage P t temp r).0 ≡ ok n
      → temp ≡ n
  unfolding finish_stage
  finish_stage-name t temp n (ok _, s) h = cc
  finish_stage-name t temp n (err e, s) h = cc

  stage_fresh :
      (t : TemplateResource P) (tmpl : P.Template) (s : P.State) (q n : Text)
      → (stage P t tmpl s).0 ≡ ok n
      → IsFreshFor n s q
  unfolding stage
  stage_fresh t tmpl s q n =
      >>=_cases (λ (r : Result Text × P.State). r.0 ≡ ok n → IsFreshFor n s q)
        (P.temp_file (path_dir t.dest) (codes "." ++ path_base t.dest)) _ s
        (λ temp e h f k. λ same.
          ne_of_file M s temp q f (M.temp_fresh _ _ temp s e) k
            (finish_stage-name t temp n _ h ∙ same))
        (λ e k h. cc)

  stage_parsed-NamesFresh :
      (parsed : Result P.Template) (w : World P) (q : Text)
      → NamesFresh w q (stage_parsed P parsed w)
  unfolding stage_parsed
  stage_parsed-NamesFresh (err e) w q = tt
  stage_parsed-NamesFresh (ok tmpl) w q =
      set_stage_file-NamesFresh w q (stage P w.resource tmpl w.outside)
        (λ temp h. stage_fresh w.resource tmpl w.outside q temp h)

  pub create_stage_file-NamesFresh :
      (w : World P) (q : Text) → NamesFresh w q (create_stage_file P w)
  unfolding create_stage_file
  create_stage_file-NamesFresh w q =
      elim (Bool-cases (not (is_file_exist P w.resource.src w.outside))) [
        | inl e ↦ rw e tt
        | inr e ↦ rw e (stage_parsed-NamesFresh (P.parse_template w.resource.src w.outside) w q)
      ]
