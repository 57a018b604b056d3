-- ===== src/Tests/Log.antt =====
-- The log with a small logrus: a level is its rank, and lets lower ones pass.
use confd.Prelude.{ℕ, ◌≡◌, refl, ◌↔◌, false, some, [], leb}
use confd.Std.Text.{codes}
use confd.Std.Result.{err}
use confd.Std.Fmt.{sprintf, extra, missing}
use confd.Std.Fmt.Plain.{has_percent}
use confd.Log.{Logrus, System, Log, log_at}
use confd.Log.Messages.{printed, log_at-printed_iff}

abbrev logrus : Logrus
logrus = record {
  Level = ℕ;
  fatal_level = 1;
  error_level = 2;
  warn_level = 3;
  info_level = 4;
  debug_level = 5;
  level_text = λ n. codes "level";
  parse_level = λ s. err (codes "not a level");
  is_enabled = λ set level. leb level set;
}

abbrev system : System
system = record { timestamp = codes "now"; hostname = codes "host"; pid = 7 }

abbrev empty_log : Log logrus
empty_log = record { tag = codes "confd"; level = 4; lines = []; has_exited = false }

-- An error whose text has a percent sign, as `main` logs it.
percent_letter : sprintf (codes "a%cb") [] ≡ some (codes "a%!c(MISSING)b")
unfolding sprintf extra missing
percent_letter = refl

log_at-printed_iff_example :
    (log_at logrus system 2 (codes "a%cb") [] empty_log
      ≡ some (printed logrus system 2 (codes "a%!c(MISSING)b") empty_log))
    × ((log_at logrus system 2 (codes "a%cb") [] empty_log
          ≡ some (printed logrus system 2 (codes "a%cb") empty_log))
        ↔ (has_percent (codes "a%cb") ≡ false))
log_at-printed_iff_example =
    log_at-printed_iff logrus system 2 (codes "a%cb") (codes "a%!c(MISSING)b") empty_log refl refl
      percent_letter
