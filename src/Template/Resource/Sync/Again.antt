-- ===== src/Template/Resource/Sync/Again.antt =====
-- A second `sync` of the same contents.
use confd.Prelude.{◌≡◌, refl, sym, ap, ◌∙◌, ◌≢◌, inl, inr, true, false, some, Bool-cases}
use mathlib.Core.Option.{some-injective}
use confd.Std.Text.{Text}
use confd.Std.Result.{Result, ok, err}
use confd.Util.Files.{is_file_exist, is_config_changed}
use confd.Util.Files.Agree.{Agree, is_config_changed_iff}
use confd.Platform.{Platform, File, Stat, missing, found, failed}
use confd.Platform.Laws.{FileModel}
use confd.Template.Resource.{TemplateResource}
use confd.Template.Resource.Sync.{after_rename, overwrite, clean_up, sync_body, sync_staged}
use confd.Template.Resource.Sync.Frame.{clean_up-other, update-sync_only}
use confd.Template.Resource.Sync.Outcomes.{sync_idle}

module _ {P : Platform} (M : FileModel P) where
  file-is_file_exist :
      (p : Text) (f : File) (s : P.State) → M.file p s ≡ some f → is_file_exist P p s ≡ true
  unfolding is_file_exist
  file-is_file_exist p f s e = go (P.stat p s) refl
    where
      go : (x : Stat) → P.stat p s ≡ x → (elim x [ missing ↦ false | _ ↦ true ]) ≡ true
      go missing k = let n = M.stat_missing p s k in cc
      go (found m) k = refl
      go (failed e) k = refl

  -- Two files are the same as far as the comparison goes.
  pub record Alike (d i : File) : Type 0 where
    pub uid : d.uid ≡ i.uid
    pub gid : d.gid ≡ i.gid
    pub mode : d.mode ≡ i.mode
    pub md5 : P.md5 d.contents ≡ P.md5 i.contents

  overwritten :
      (t : TemplateResource P) (staged : Text) (s : P.State) (g : File)
      → M.file staged s ≡ some g
      → (P.rename staged t.dest s).0 ≡ ok tt
      → M.file t.dest (overwrite P t staged s).1 ≡ some g
  unfolding overwrite after_rename
  overwritten t staged s g e r = go (P.rename staged t.dest s) r (M.rename_ok staged t.dest s r ∙ e)
    where
      go :
          (x : Result (Unit {0}) × P.State)
          → x.0 ≡ ok tt
          → M.file t.dest x.1 ≡ some g
          → M.file t.dest (after_rename P t staged x).1 ≡ some g
      go (ok _, s') h k = k
      go (err e', s') h k = cc

  abbrev Left : TemplateResource P → File → P.State → Type 0
  Left t g s = (d : File) × (M.file t.dest s ≡ some d) × Alike d g

  agreed-Left :
      (t : TemplateResource P) (staged : Text) (s : P.State) (g : File)
      → M.file staged s ≡ some g
      → Agree P staged t.dest s
      → Left t g s
  agreed-Left t staged s g e a =
      let is_g : a.i ≡ g = some-injective _ _ (sym (M.open_ok staged s a.i a.open_src) ∙ e) in
      (
        a.d,
        M.open_ok t.dest s a.d a.open_dest,
        record {
          uid = a.uid ∙ ap File.uid is_g;
          gid = a.gid ∙ ap File.gid is_g;
          mode = a.mode ∙ ap File.mode is_g;
          md5 = a.md5 ∙ ap (λ f. P.md5 (File.contents f)) is_g;
        },
      )

  clean_up-Left :
      (t : TemplateResource P) (staged : Text) (s : P.State) (g : File)
      → staged ≢ t.dest
      → Left t g s
      → Left t g (clean_up P t staged s)
  clean_up-Left t staged s g apart (d, e, a) =
      (d, clean_up-other P M t staged t.dest s apart ∙ e, a)

  sync_staged-Left :
      (t : TemplateResource P) (staged : Text) (s : P.State) (g : File)
      → t.noop ≡ false
      → t.sync_only ≡ true
      → staged ≢ t.dest
      → M.file staged s ≡ some g
      → (P.rename staged t.dest s).0 ≡ ok tt
      → Left t g (sync_staged P t staged s).1
  unfolding sync_staged sync_body
  sync_staged-Left t staged s g n o apart e r =
      simp n (elim (Bool-cases (is_config_changed P staged t.dest s).0) [
        | inl c ↦ rw c (
            rw (update-sync_only P t staged s o) (
              clean_up-Left t staged _ g apart (
                g,
                overwritten t staged s g e r,
                record { uid = refl; gid = refl; mode = refl; md5 = refl },
              )))
        | inr c ↦ rw c (
            clean_up-Left t staged s g apart
              (agreed-Left t staged s g e ((is_config_changed_iff P staged t.dest s).0 c)))
      ])

  alike-Agree :
      (t : TemplateResource P) (staged : Text) (s : P.State) (g : File)
      → Left t g s
      → M.file staged s ≡ some g
      → ((p : Text) (f : File) → M.file p s ≡ some f → P.open_file p s ≡ ok f)
      → Agree P staged t.dest s
  alike-Agree t staged s g (d, e, a) e' opens = record {
    d = d;
    i = g;
    dest_exists = file-is_file_exist t.dest d s e;
    src_exists = file-is_file_exist staged g s e';
    open_dest = opens t.dest d e;
    open_src = opens staged g e';
    uid = a.uid;
    gid = a.gid;
    mode = a.mode;
    md5 = a.md5;
  }

  -- Syncing twice changes nothing the second time. Take a resource that runs no command and is
  -- not in noop mode, whose staged file is another file than the destination and can be renamed
  -- to it. Take a later state with the destination that `sync` left, in which the same file has
  -- been staged again and every file can be opened. There `sync` succeeds, and only removes the
  -- staged file, unless it is to be kept.
  pub sync_again :
      (t : TemplateResource P) (staged staged' : Text) (s s' : P.State) (g : File)
      → t.noop ≡ false
      → t.sync_only ≡ true
      → staged ≢ t.dest
      → M.file staged s ≡ some g
      → (P.rename staged t.dest s).0 ≡ ok tt
      → M.file t.dest s' ≡ M.file t.dest (sync_staged P t staged s).1
      → M.file staged' s' ≡ some g
      → ((p : Text) (f : File) → M.file p s' ≡ some f → P.open_file p s' ≡ ok f)
      → sync_staged P t staged' s' ≡ (ok tt, clean_up P t staged' s')
  sync_again t staged staged' s s' g n o apart e r kept e' opens =
      let (d, k, a) = sync_staged-Left t staged s g n o apart e r in
      sync_idle P t staged' s' (
        inr (
          (is_config_changed_iff P staged' t.dest s').1
            (alike-Agree t staged' s' g (d, kept ∙ k, a) e' opens)))
