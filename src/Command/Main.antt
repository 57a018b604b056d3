-- ===== src/Command/Main.antt =====
-- cmd/confd/main.go: `main` up to its loop.
pub mod Begins
pub mod Insecure
pub mod Succeeds
use confd.Prelude.{Bool, true, false, Option, none, some, List, [], ◌∷◌, if◌then◌else◌}
use confd.Std.Text.{Text}
use confd.Std.Int.{ℤ}
use confd.Std.Result.{Error, Result, ok, err}
use confd.Platform.{Platform, StoreClient}
use confd.Backends.Choice.{Client, new_client}
use confd.Template.Resource.{Config}
use confd.Template.Processor.{process_once}
use confd.Command.Settings.{Settings, backends_config, template_config}
use confd.Command.Config.{Host, Outcome, ready, failed, exits, init_config}

module _ (P : Platform) where
  -- The processor that is started: it watches, or runs at an interval.
  pub data Processor : Type 0 where
    watch_processor : Config P → Processor
    interval_processor : Config P → ℤ → Processor

  -- What `main` comes to: it ends with the version or as `initConfig` does, by `log.Fatal`, by a
  -- panic, after one run, or it starts a processor and goes into its loop.
  pub data Course : Type 0 where
    version_printed : Course
    stopped : Course
    fatal : Error → P.State → Course
    panicked : Course
    done_once : P.State → Course
    loops : Processor → Course

  -- The status of one run: its error ends the program.
  unfoldable pub after_once : Option Error × P.State → Course
  after_once (none, s) = done_once s
  after_once (some e, s) = fatal e s

  unfoldable pub choose_processor : Settings → Config P → Processor
  choose_processor c config =
      if c.watch then watch_processor config else interval_processor config c.interval

  -- With a client: one run, or a processor.
  unfoldable pub run_with : Settings → Config P → P.State → Course
  run_with c config s =
      if c.one_time then after_once (process_once P config s) else loops (choose_processor c config)

  -- The client that a constructor makes, its error, or a panic of the constructor.
  abbrev pub Connect : Type 0
  Connect = Client → Option (Result (StoreClient P))

  unfoldable pub run_connected : Settings → Option (Result (StoreClient P)) → P.State → Course
  run_connected c none s = panicked
  run_connected c (some (err e)) s = fatal e s
  run_connected c (some (ok client)) s = run_with c (template_config P c (some client)) s

  -- `backends.New` and what follows it.
  unfoldable pub run_created : Connect → Settings → Option (Result Client) → P.State → Course
  run_created connect c none s = panicked
  run_created connect c (some (err e)) s = fatal e s
  run_created connect c (some (ok client)) s = run_connected c (connect client) s

  unfoldable pub run_ready : Connect → Outcome → P.State → Course
  run_ready connect (ready c) s = run_created connect c (new_client (backends_config c)) s
  run_ready connect (failed e) s = fatal e s
  run_ready connect exits s = stopped

  -- `main`, at the settings that the flags left.
  unfoldable pub main : Host → Connect → Settings → P.State → Course
  main host connect c s =
      if c.print_version then version_printed else run_ready connect (init_config host c) s
