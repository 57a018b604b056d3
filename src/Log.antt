-- ===== src/Log.antt =====
-- pkg/log/log.go: the lines that the program prints. The log is passed on as a value, with what was
-- printed so far and whether the program has exited; `none` stands for a format that Std/Fmt does
-- not model.
pub mod Messages
use confd.Prelude.{
  ℕ, Bool, true, false, not, ◌&&◌, Option, none, some, List, [], ◌∷◌, ◌++◌, if◌then◌else◌,
}
use confd.Std.Text.{Text, codes, to_upper}
use confd.Std.Result.{Error, Result, ok, err}
use confd.Std.Strconv.{itoa}
use confd.Std.Fmt.{Arg, sprintf}

-- What the program calls of logrus: its levels, their names, and whether a set level lets an entry of
-- a level pass.
pub record Logrus : Type 1 where
  pub Level : Type 0
  pub fatal_level : Level
  pub error_level : Level
  pub warn_level : Level
  pub info_level : Level
  pub debug_level : Level
  pub level_text : Level → Text
  pub parse_level : Text → Result Level
  pub is_enabled : Level → Level → Bool

-- What `Format` asks the system for: the time as text, the host's name, the process's number.
pub record System : Type 0 where
  pub timestamp : Text
  pub hostname : Text
  pub pid : ℕ

module _ (L : Logrus) where
  pub record Log : Type 0 where
    pub tag : Text
    pub level : L.Level
    pub lines : List Text
    pub has_exited : Bool

  -- What stands before the message of a line.
  unfoldable pub heading : System → Text → L.Level → Text
  heading sys tag level =
      sys.timestamp
      ++ (codes " "
          ++ (sys.hostname
              ++ (codes " "
                  ++ (tag
                      ++ (codes "["
                          ++ (itoa sys.pid
                              ++ (codes "]: " ++ (to_upper (L.level_text level) ++ codes " "))))))))

  -- `ConfdFormatter.Format`
  unfoldable pub format : System → Text → L.Level → Text → Text
  format sys tag level message = heading sys tag level ++ (message ++ codes "\n")

  -- `init`
  unfoldable pub init : Text → L.Level → Log
  init program level = record { tag = program; level = level; lines = []; has_exited = false }

  -- `SetTag`
  unfoldable pub set_tag : Text → Log → Log
  set_tag t log = record log { tag = t }

  -- What logrus does with an entry: it is printed where the level lets it pass.
  unfoldable pub entry : System → L.Level → Text → Log → Log
  entry sys level message log =
      if not log.has_exited && L.is_enabled log.level level
      then record log { lines = log.lines ++ (format sys log.tag level message ∷ []) }
      else log

  unfoldable pub exit : Log → Log
  exit log = record log { has_exited = true }

  -- The message of an entry, from a format and its arguments.
  unfoldable pub log_at : System → L.Level → Text → List Arg → Log → Option Log
  log_at sys level fmt v log = elim (sprintf fmt v) [
    | none ↦ none
    | some message ↦ some (entry sys level message log)
  ]

  -- `Debug`, `Error`, `Info` and `Warning`
  unfoldable pub debug : System → Text → List Arg → Log → Option Log
  debug sys fmt v log = log_at sys L.debug_level fmt v log

  unfoldable pub error : System → Text → List Arg → Log → Option Log
  error sys fmt v log = log_at sys L.error_level fmt v log

  unfoldable pub info : System → Text → List Arg → Log → Option Log
  info sys fmt v log = log_at sys L.info_level fmt v log

  unfoldable pub warning : System → Text → List Arg → Log → Option Log
  warning sys fmt v log = log_at sys L.warn_level fmt v log

  -- `Fatal`, which exits after its entry.
  unfoldable pub fatal : System → Text → List Arg → Log → Option Log
  fatal sys fmt v log = elim (log_at sys L.fatal_level fmt v log) [
    | none ↦ none
    | some log' ↦ some (exit log')
  ]

  -- `SetLevel`: its last line is not reached where `Fatal` has exited.
  unfoldable pub set_level : System → Text → Log → Option Log
  set_level sys level log = elim (L.parse_level level) [
    | ok lvl ↦ some (record log { level = lvl })
    | err e ↦ fatal sys (codes "not a valid level: \"" ++ (level ++ codes "\"")) [] log
  ]
