-- ===== src/Template/Resource/Sync/Frame.antt =====
-- Which files `sync` leaves alone, and what it leaves at the destination, where it runs no command.
use confd.Prelude.{
  ◌≡◌, refl, sym, ap, ◌∙◌, ◌≢◌, Bool, true, false, some, if◌then◌else◌, Bool-cases, ◌⊎◌, inl, inr,
}
use confd.Std.Text.{Text, codes, contains}
use confd.Std.Result.{Error, Result, ok, err}
use confd.Std.Exec.{continue, ◌>>◌}
use confd.Util.Files.{is_config_changed}
use confd.Util.Files.Agree.{is_config_changed_iff}
use mathlib.Core.Option.{some-injective}
use confd.Platform.{Platform, File}
use confd.Platform.Laws.{FileModel}
use confd.Template.Resource.{TemplateResource}
use confd.Template.Resource.Sync.{
  check_first, write_through, after_rename, overwrite, reload_after, update, clean_up, sync_body,
  sync_staged,
}

module _ (P : Platform) where
  check_first-sync_only :
      (t : TemplateResource P) (staged : Text) (s : P.State)
      → t.sync_only ≡ true
      → check_first P t staged s ≡ (ok tt, s)
  unfolding check_first
  check_first-sync_only t staged s h = simp h refl

  reload_after-sync_only :
      (t : TemplateResource P) (r : Result (Unit {0})) (s : P.State)
      → t.sync_only ≡ true
      → continue r (λ _. reload_after P t) s ≡ (r, s)
  unfolding reload_after
  reload_after-sync_only t (ok _) s h = simp h refl
  reload_after-sync_only t (err e) s h = refl

  pub update-sync_only :
      (t : TemplateResource P) (staged : Text) (s : P.State)
      → t.sync_only ≡ true
      → update P t staged s ≡ overwrite P t staged s
  unfolding update
  update-sync_only t staged s h =
      ap
        (λ (r : Result (Unit {0}) × P.State).
          continue r.0 (λ _. overwrite P t staged >> reload_after P t) r.1)
        (check_first-sync_only t staged s h)
      ∙ reload_after-sync_only t (overwrite P t staged s).0 (overwrite P t staged s).1 h

module _ (P : Platform) (M : FileModel P) where
  pub clean_up-other :
      (t : TemplateResource P) (staged q : Text) (s : P.State)
      → staged ≢ q
      → M.file q (clean_up P t staged s) ≡ M.file q s
  unfolding clean_up
  clean_up-other t staged q s h = elim (Bool-cases t.keep_stage_file) [
    | inl e ↦ simp e refl
    | inr e ↦ simp e (M.remove_other staged q s h)
  ]

  write_through-other :
      (t : TemplateResource P) (staged q : Text) (s : P.State)
      → t.dest ≢ q
      → M.file q (write_through P t staged s).1 ≡ M.file q s
  unfolding write_through
  write_through-other t staged q s h = go (P.read_file staged s)
    where
      go :
          (r : Result Text)
          → M.file q
              (elim r as (λ _. Result (Unit {0}) × P.State) [
                | err e ↦ (err e, s)
                | ok contents ↦
                    let (r', s') = P.write_file t.dest contents t.file_mode s in
                    (r', P.chown t.dest t.uid t.gid s')
              ]).1
            ≡ M.file q s
      go (err e) = refl
      go (ok contents) =
          M.chown_other t.dest q t.uid t.gid _ h ∙ M.write_other t.dest q contents t.file_mode s h

  overwrite-other :
      (t : TemplateResource P) (staged q : Text) (s : P.State)
      → staged ≢ q
      → t.dest ≢ q
      → M.file q (overwrite P t staged s).1 ≡ M.file q s
  unfolding overwrite after_rename
  overwrite-other t staged q s h k =
      go (P.rename staged t.dest s).0 (P.rename staged t.dest s).1
        (M.rename_other staged t.dest q s h k)
    where
      go :
          (r : Result (Unit {0})) (s' : P.State)
          → M.file q s' ≡ M.file q s
          → M.file q (after_rename P t staged (r, s')).1 ≡ M.file q s
      go (ok _) s' e = e
      go (err x) s' e = elim (Bool-cases (contains x (codes "device or resource busy"))) [
        | inl b ↦ rw b (write_through-other t staged q s' k ∙ e)
        | inr b ↦ rw b e
      ]

  -- Where the resource is in noop mode, or runs no command and has another destination, `sync`
  -- leaves every file but the staged one as it is.
  pub sync_staged-other :
      (t : TemplateResource P) (staged q : Text) (s : P.State)
      → staged ≢ q
      → (t.noop ≡ true) ⊎ ((t.sync_only ≡ true) × (t.dest ≢ q))
      → M.file q (sync_staged P t staged s).1 ≡ M.file q s
  unfolding sync_staged sync_body
  sync_staged-other t staged q s h (inl n) = simp n (clean_up-other t staged q s h)
  sync_staged-other t staged q s h (inr (o, d)) =
      clean_up-other t staged q _ h ∙ go t.noop (is_config_changed P staged t.dest s).0
    where
      go :
          (n c : Bool)
          → M.file q (if n then (ok tt, s) else if c then update P t staged s else (ok tt, s)).1
            ≡ M.file q s
      go true c = refl
      go false true =
          ap (λ (r : Result (Unit {0}) × P.State). M.file q r.1) (update-sync_only P t staged s o)
          ∙ overwrite-other t staged q s h d
      go false false = refl

  -- A resource is up to date: its destination holds a file of those contents, as far as the
  -- program can tell by the digest.
  abbrev pub Holds : TemplateResource P → Text → P.State → Type 0
  Holds t contents s = (f : File) × (M.file t.dest s ≡ some f) × (P.md5 f.contents ≡ P.md5 contents)

  clean_up-Holds :
      (t : TemplateResource P) (staged contents : Text) (s : P.State)
      → staged ≢ t.dest
      → Holds t contents s
      → Holds t contents (clean_up P t staged s)
  clean_up-Holds t staged contents s h (f, e, d) = (f, clean_up-other t staged t.dest s h ∙ e, d)

  write_through-Holds :
      (t : TemplateResource P) (staged : Text) (s : P.State) (g : File)
      → M.file staged s ≡ some g
      → (write_through P t staged s).0 ≡ ok tt
      → Holds t g.contents (write_through P t staged s).1
  unfolding write_through
  write_through-Holds t staged s g e = go (P.read_file staged s) refl
    where
      go :
          (r : Result Text)
          → P.read_file staged s ≡ r
          → let out : Result (Unit {0}) × P.State = elim r [
            | err x ↦ (err x, s)
            | ok contents ↦
                let (r', s') = P.write_file t.dest contents t.file_mode s in
                (r', P.chown t.dest t.uid t.gid s')
          ] in
            out.0 ≡ ok tt → Holds t g.contents out.1
      go (err x) k h = cc
      go (ok contents) k h =
          let (g', e', c') = M.read_ok staged s contents k in
          let (f, ef, cf) = M.write_ok t.dest contents t.file_mode s h in
          let (f', ef', cf') = M.chown_contents t.dest t.uid t.gid _ f ef in
          (f', ef', ap P.md5 (cf' ∙ cf ∙ sym c' ∙ cc))

  overwrite-Holds :
      (t : TemplateResource P) (staged : Text) (s : P.State) (g : File)
      → M.file staged s ≡ some g
      → staged ≢ t.dest
      → (overwrite P t staged s).0 ≡ ok tt
      → Holds t g.contents (overwrite P t staged s).1
  unfolding overwrite after_rename
  overwrite-Holds t staged s g e apart =
      go (P.rename staged t.dest s).0 (P.rename staged t.dest s).1
        (λ h. M.rename_ok staged t.dest s h) (λ x h. M.rename_err staged t.dest staged x s h)
    where
      go :
          (r : Result (Unit {0})) (s' : P.State)
          → (r ≡ ok tt → M.file t.dest s' ≡ M.file staged s)
          → ((x : Error) → r ≡ err x → M.file staged s' ≡ M.file staged s)
          → (after_rename P t staged (r, s')).0 ≡ ok tt
          → Holds t g.contents (after_rename P t staged (r, s')).1
      go (ok _) s' k l h = (g, k refl ∙ e, refl)
      go (err x) s' k l h = elim (Bool-cases (contains x (codes "device or resource busy"))) [
        | inl b ↦ rw b (write_through-Holds t staged s' g (l x refl ∙ e) (rw b at h))
        | inr b ↦ let failed : err x ≡ ok tt = rw b at h in cc
      ]

  agreed-Holds :
      (t : TemplateResource P) (staged : Text) (s : P.State) (g : File)
      → M.file staged s ≡ some g
      → (is_config_changed P staged t.dest s).0 ≡ false
      → Holds t g.contents s
  agreed-Holds t staged s g e h =
      let a = (is_config_changed_iff P staged t.dest s).0 h in
      let same_file = M.open_ok staged s a.i a.open_src in
      (
        a.d,
        M.open_ok t.dest s a.d a.open_dest,
        a.md5 ∙ ap P.md5 (ap File.contents (some-injective _ _ (sym same_file ∙ e))),
      )

  -- Where a resource is set to sync only, and so runs no command, and is not in noop mode, its
  -- staged file is there and is another file than the destination, and `sync` returns no error,
  -- the destination is a file whose contents have the digest of the staged file's: a rename, the
  -- write through a mount and the finding that nothing changed all end so.
  pub sync_staged-Holds :
      (t : TemplateResource P) (staged : Text) (s : P.State) (g : File)
      → t.noop ≡ false
      → t.sync_only ≡ true
      → staged ≢ t.dest
      → M.file staged s ≡ some g
      → (sync_staged P t staged s).0 ≡ ok tt
      → Holds t g.contents (sync_staged P t staged s).1
  unfolding sync_staged sync_body
  sync_staged-Holds t staged s g n o apart e =
      simp n (elim (Bool-cases (is_config_changed P staged t.dest s).0) [
        | inl c ↦ rw c (
            rw (update-sync_only P t staged s o) (λ h.
              clean_up-Holds t staged g.contents _ apart (overwrite-Holds t staged s g e apart h)))
        | inr c ↦
            rw c (λ h. clean_up-Holds t staged g.contents s apart (agreed-Holds t staged s g e c))
      ])
