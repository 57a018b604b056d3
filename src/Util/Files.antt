-- ===== src/Util/Files.antt =====
-- pkg/util: `IsFileExist`, `FileStat` (filestat_posix.go) and `IsConfigChanged`.
pub mod Agree
use mathlib.Core.Logic.{ite}
use confd.Prelude.{
  ℕ, ◌≡◌, refl, Bool, true, false, not, ◌||◌, Option, none, some, ◌==◌, if◌then◌else◌,
}
use confd.Std.Text.{Text, codes, same, text_dec}
use confd.Std.Result.{Error, Result, ok, err}
use confd.Platform.{Platform, Stat, found, missing, failed, File}

-- `FileInfo`
pub record FileInfo : Type 0 where
  pub uid : ℕ
  pub gid : ℕ
  pub mode : ℕ
  pub md5 : Text

-- The test over the four fields.
unfoldable pub info_differs : FileInfo → FileInfo → Bool
info_differs d s =
    not (d.uid == s.uid) || not (d.gid == s.gid) || not (d.mode == s.mode) || not (same d.md5 s.md5)

module _ (P : Platform) where
  -- `IsFileExist`: any answer but `os.IsNotExist` counts as existing.
  unfoldable pub is_file_exist : Text → P.State → Bool
  is_file_exist path s = elim (P.stat path s) [ missing ↦ false | _ ↦ true ]

  abbrev info_of : File → FileInfo
  info_of f = record { uid = f.uid; gid = f.gid; mode = f.mode; md5 = P.md5 f.contents }

  abbrev map_info : Result File → Result FileInfo
  map_info (ok f) = ok (info_of f)
  map_info (err e) = err e

  abbrev windows_info_of : File → FileInfo
  windows_info_of f = record { uid = 0; gid = 0; mode = f.mode; md5 = P.md5 f.contents }

  abbrev map_windows_info : Result File → Result FileInfo
  map_windows_info (ok f) = ok (windows_info_of f)
  map_windows_info (err e) = err e

  -- `FileStat`
  unfoldable pub file_stat : Text → P.State → Result FileInfo
  file_stat name s =
      if is_file_exist name s then map_info (P.open_file name s) else err (codes "File not found")

  -- `FileStat` of the Windows build (filestat_windows.go), which leaves the owner and the group at 0.
  -- It is called there without the file system.
  unfoldable pub file_stat_windows : Text → P.State → Result FileInfo
  file_stat_windows name s =
      if is_file_exist name s
      then map_windows_info (P.open_file name s)
      else err (codes "File not found")

  -- `IsConfigChanged`: its two results.
  unfoldable pub is_config_changed : Text → Text → P.State → Bool × Option Error
  is_config_changed src dest s =
      if not (is_file_exist dest s) then (true, none) else elim (file_stat dest s) [
        | err e ↦ (true, some e)
        | ok d ↦ elim (file_stat src s) [ err e ↦ (true, some e) | ok i ↦ (info_differs d i, none) ]
      ]
