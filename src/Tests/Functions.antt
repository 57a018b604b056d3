-- ===== src/Tests/Functions.antt =====
-- The functions of the templates at small arguments, and a second sync.
use confd.Prelude.{
  ℕ, ◌≡◌, refl, sym, ◌∙◌, ◌+◌, ◌-◌, ◌≢◌, true, false, some, none, [], ◌∷◌, arith, ◌==◌,
  if◌then◌else◌,
}
use confd.Std.Text.{codes, text_dec}
use confd.Std.Result.{ok}
use confd.Std.Dict.{lookup, insert, erase}
use confd.Util.Files.{is_file_exist, file_stat, info_differs, is_config_changed}
use confd.Platform.Memory.{Disk, memory}
use confd.Platform.Memory.Lawful.{memory-FileModel, file-memory, opens-memory}
use confd.Template.Resource.Sync.{
  overwrite, after_rename, update, clean_up, sync_body, sync_staged, check_first, reload_after,
}
use confd.Template.Resource.Sync.Again.{sync_again}
use confd.Template.Functions.Sequence.{ints, seq, count_up, seq_lem}
use confd.Template.Functions.Arithmetic.{patterns, quotient, int_div, int_mod}
use confd.Template.Functions.Arithmetic.Division.{IsDivision, int_div-int_mod}
use confd.Tests.Samples.{text_file, conf, staged, disk, staged_disk, app}

seq_lem_example : seq 5 3 5 ≡ (if 5 + 1 == ints then none else some (count_up 3 ((5 + 1) - 3)))
seq_lem_example = seq_lem 5 3 5 (omega arith) (omega arith) (omega arith)

-- -7 by 2, and the rest -1.
int_div-int_mod_example :
    (q : ℕ) × (r : ℕ) × (int_div (patterns - 7) 2 ≡ some q)
    × (int_mod (patterns - 7) 2 ≡ some r)
    × IsDivision (patterns - 7) 2 q r
int_div-int_mod_example = int_div-int_mod (patterns - 7) 2 (omega arith) (omega arith) (omega arith)

minus_seven_by_two : int_div (patterns - 7) 2 ≡ some (patterns - 3)
unfolding int_div quotient
minus_seven_by_two = refl

staged_apart : staged ≢ conf
staged_apart h = ground arith

-- The destination holds the new contents, and the same contents have been staged again.
abbrev again : Disk
again = record disk { files = (staged, text_file (codes "v")) ∷ (conf, text_file (codes "v")) ∷ [] }

renames : (memory.rename staged conf staged_disk).0 ≡ ok tt
unfolding lookup text_dec
renames = refl

kept :
    memory-FileModel.file conf again
    ≡ memory-FileModel.file conf (sync_staged memory (app false true []) staged staged_disk).1
unfolding sync_staged sync_body is_config_changed is_file_exist file_stat info_differs update
    check_first overwrite after_rename reload_after clean_up lookup insert erase text_dec
kept =
    file-memory conf again
    ∙ sym (file-memory conf (sync_staged memory (app false true []) staged staged_disk).1)

staged_once : memory-FileModel.file staged staged_disk ≡ some (text_file (codes "v"))
unfolding lookup text_dec
staged_once = file-memory staged staged_disk

staged_twice : memory-FileModel.file staged again ≡ some (text_file (codes "v"))
unfolding lookup text_dec
staged_twice = file-memory staged again

sync_again_example :
    sync_staged memory (app false true []) staged again
    ≡ (ok tt, clean_up memory (app false true []) staged again)
sync_again_example =
    sync_again memory-FileModel (app false true []) staged staged staged_disk again
      (text_file (codes "v")) refl refl staged_apart staged_once renames kept staged_twice
      (λ p f. opens-memory p f again)
