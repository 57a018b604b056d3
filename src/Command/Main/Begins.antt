-- ===== src/Command/Main/Begins.antt =====
-- `main` gets to its run or its loop without a panic.
use confd.Prelude.{◌≡◌, refl, ◌≢◌, Bool, true, false, Option, none, some, if◌then◌else◌}
use confd.Std.Result.{Error, Result, ok, err}
use confd.Platform.{Platform, StoreClient}
use confd.Backends.Choice.{Client, new_client}
use confd.Template.Resource.{Config}
use confd.Template.Processor.{process_once}
use confd.Command.Settings.{Settings, backends_config, template_config}
use confd.Command.Config.{Host, Outcome, ready, failed, exits, init_config}
use confd.Command.Start.{new_client-ready}
use confd.Command.Main.{
  Course, panicked, after_once, run_with, Connect, run_connected, run_created, run_ready, main,
}

module _ (P : Platform) where
  if_safe :
      {x y : Course P} (b : Bool) → x ≢ panicked → y ≢ panicked → (if b then x else y) ≢ panicked
  if_safe true h k = h
  if_safe false h k = k

  after_once-panicked : (r : Option Error × P.State) → after_once P r ≢ panicked
  unfolding after_once
  after_once-panicked (none, s) h = cc
  after_once-panicked (some e, s) h = cc

  run_with-panicked :
      (c : Settings) (config : Config P) (s : P.State) → run_with P c config s ≢ panicked
  unfolding run_with
  run_with-panicked c config s =
      if_safe c.one_time (after_once-panicked (process_once P config s)) (λ h. cc)

  run_connected-panicked :
      (c : Settings) (r : Option (Result (StoreClient P))) (s : P.State)
      → r ≢ none
      → run_connected P c r s ≢ panicked
  unfolding run_connected
  run_connected-panicked c none s n h = n refl
  run_connected-panicked c (some (err e)) s n h = cc
  run_connected-panicked c (some (ok client)) s n h =
      run_with-panicked c (template_config P c (some client)) s h

  run_created-panicked :
      (connect : Connect P) (c : Settings) (o : Option (Result Client)) (s : P.State)
      → ((maker : Client) → connect maker ≢ none)
      → o ≢ none
      → run_created P connect c o s ≢ panicked
  unfolding run_created
  run_created-panicked connect c none s m n h = n refl
  run_created-panicked connect c (some (err e)) s m n h = cc
  run_created-panicked connect c (some (ok client)) s m n h =
      run_connected-panicked c (connect client) s (m client) h

  run_ready-panicked :
      (host : Host) (connect : Connect P) (c : Settings) (o : Outcome) (s : P.State)
      → ((maker : Client) → connect maker ≢ none)
      → init_config host c ≡ o
      → run_ready P connect o s ≢ panicked
  unfolding run_ready backends_config
  run_ready-panicked host connect c (ready d) s m e h =
      run_created-panicked connect d (new_client (backends_config d)) s m
        (new_client-ready host c d (backends_config d) e refl refl) h
  run_ready-panicked host connect c (failed x) s m e h = cc
  run_ready-panicked host connect c exits s m e h = cc

  -- Whatever the flags, the configuration file and the environment are, the program does not panic
  -- up to its one run or its loop, where no constructor of a backend's client does: in particular an
  -- address is there wherever `New` takes the first one.
  pub main-panicked :
      (host : Host) (connect : Connect P) (c : Settings) (s : P.State)
      → ((maker : Client) → connect maker ≢ none)
      → main P host connect c s ≢ panicked
  unfolding main
  main-panicked host connect c s m =
      if_safe c.print_version (λ h. cc)
        (run_ready-panicked host connect c (init_config host c) s m refl)
