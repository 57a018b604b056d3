-- ===== src/Util/Files/Agree.antt =====
-- When `IsConfigChanged` finds that two files agree.
use confd.Prelude.{◌≡◌, refl, ◌↔◌, Bool, true, false, not, Option, none, some, arith, if◌then◌else◌}
use confd.Std.Text.{Text, codes}
use confd.Std.Result.{Error, Result, ok, err}
use confd.Platform.{Platform, File}
use confd.Util.Files.{
  is_file_exist, FileInfo, info_differs, map_info, info_of, file_stat, is_config_changed,
}

-- Both files are there and can be read, and they have one owner, group, mode and digest.
pub record Agree (P : Platform) (src dest : Text) (s : P.State) : Type 0 where
  pub d : File
  pub i : File
  pub dest_exists : is_file_exist P dest s ≡ true
  pub src_exists : is_file_exist P src s ≡ true
  pub open_dest : P.open_file dest s ≡ ok d
  pub open_src : P.open_file src s ≡ ok i
  pub uid : d.uid ≡ i.uid
  pub gid : d.gid ≡ i.gid
  pub mode : d.mode ≡ i.mode
  pub md5 : P.md5 d.contents ≡ P.md5 i.contents

info_differs-false :
    (d i : FileInfo)
    → info_differs d i ≡ false
    → (d.uid ≡ i.uid) × (d.gid ≡ i.gid) × (d.mode ≡ i.mode) × (d.md5 ≡ i.md5)
unfolding info_differs
info_differs-false d i h = ground arith

info_differs_self :
    (d i : FileInfo)
    → d.uid ≡ i.uid
    → d.gid ≡ i.gid
    → d.mode ≡ i.mode
    → d.md5 ≡ i.md5
    → info_differs d i ≡ false
unfolding info_differs
info_differs_self d i u g m c = ground arith

module _ (P : Platform) where
  file_stat-ok :
      (p : Text) (s : P.State) (x : FileInfo)
      → file_stat P p s ≡ ok x
      → (f : File) × (is_file_exist P p s ≡ true) × (P.open_file p s ≡ ok f) × (info_of P f ≡ x)
  unfolding file_stat
  file_stat-ok p s x = go (is_file_exist P p s) (P.open_file p s) refl refl
    where
      go :
          (b : Bool) (r : Result File)
          → is_file_exist P p s ≡ b
          → P.open_file p s ≡ r
          → (if b then map_info P r else err (codes "File not found")) ≡ ok x
          → (f : File) × (is_file_exist P p s ≡ true) × (P.open_file p s ≡ ok f) × (info_of P f ≡ x)
      go true (ok f) e k h = (f, e, k, cc)
      go true (err y) e k h = cc
      go false r e k h = cc

  file_stat_opened :
      (p : Text) (s : P.State) (f : File)
      → is_file_exist P p s ≡ true
      → P.open_file p s ≡ ok f
      → file_stat P p s ≡ ok (info_of P f)
  unfolding file_stat
  file_stat_opened p s f e o = simp (e, o) refl

  is_config_changed-false :
      (src dest : Text) (s : P.State)
      → (is_config_changed P src dest s).0 ≡ false
      → Agree P src dest s
  unfolding is_config_changed
  is_config_changed-false src dest s =
      go (is_file_exist P dest s) (file_stat P dest s) (file_stat P src s) refl refl
    where
      go :
          (b : Bool) (rd ri : Result FileInfo)
          → file_stat P dest s ≡ rd
          → file_stat P src s ≡ ri
          → (let out : Bool × Option Error = if not b then (true, none) else elim rd [
            | err e ↦ (true, some e)
            | ok d ↦ elim ri [ err e ↦ (true, some e) | ok i ↦ (info_differs d i, none) ]
          ] in
              out).0
            ≡ false
          → Agree P src dest s
      go false rd ri e k h = cc
      go true (err x) ri e k h = cc
      go true (ok d) (err x) e k h = cc
      go true (ok d) (ok i) e k h =
          let (fd, bd, od, xd) = file_stat-ok dest s d e in
          let (fi, bi, oi, xi) = file_stat-ok src s i k in
          let (u, g, m, c) = info_differs-false d i h in
          record {
            d = fd;
            i = fi;
            dest_exists = bd;
            src_exists = bi;
            open_dest = od;
            open_src = oi;
            uid = cc;
            gid = cc;
            mode = cc;
            md5 = cc;
          }

  is_config_changed-Agree :
      (src dest : Text) (s : P.State)
      → Agree P src dest s
      → (is_config_changed P src dest s).0 ≡ false
  unfolding is_config_changed
  is_config_changed-Agree src dest s a =
      simp (a.dest_exists, file_stat_opened dest s a.d a.dest_exists a.open_dest)
        (simp (file_stat_opened src s a.i a.src_exists a.open_src)
          (info_differs_self (info_of P a.d) (info_of P a.i) a.uid a.gid a.mode a.md5))

  -- `IsConfigChanged` answers that nothing changed exactly where both files exist, both can be
  -- opened, and owner, group, mode and digest of the two are the same.
  pub is_config_changed_iff :
      (src dest : Text) (s : P.State)
      → ((is_config_changed P src dest s).0 ≡ false) ↔ Agree P src dest s
  is_config_changed_iff src dest s =
      (is_config_changed-false src dest s, is_config_changed-Agree src dest s)
