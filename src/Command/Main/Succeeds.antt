-- ===== src/Command/Main/Succeeds.antt =====
-- When a run with `-onetime` ends with status 0.
use confd.Prelude.{◌≡◌, refl, ap, ◌≢◌, Bool, true, false, Option, none, some, if◌then◌else◌}
use confd.Std.Result.{Error, Result, ok, err}
use confd.Platform.{Platform, StoreClient}
use confd.Backends.Choice.{Client, new_client}
use confd.Template.Processor.Succeeds.{AllSucceed, process_once-AllSucceed}
use confd.Command.Settings.{Settings, backends_config, template_config}
use confd.Command.Config.{Host, Outcome, ready, failed, exits, init_config}
use confd.Command.Main.{
  Course, done_once, after_once, run_with, Connect, run_connected, run_created, run_ready, main,
}

module _ (P : Platform) where
  done_once_inj : {s s' : P.State} → (let c : Course P = done_once s in c) ≡ done_once s' → s ≡ s'
  done_once_inj {s} h = ap (λ (c : Course P). elim c [ done_once x ↦ x | _ ↦ s ]) h

  if_then : {x y z : Course P} (b : Bool) → x ≢ z → (if b then x else y) ≡ z → (b ≡ false) × (y ≡ z)
  if_then true n h = absurd (n h)
  if_then false n h = (refl, h)

  if_else : {x y z : Course P} (b : Bool) → y ≢ z → (if b then x else y) ≡ z → (b ≡ true) × (x ≡ z)
  if_else true n h = (refl, h)
  if_else false n h = absurd (n h)

  after_once-done :
      (r : Option Error × P.State) (s' : P.State) → after_once P r ≡ done_once s' → r ≡ (none, s')
  unfolding after_once
  after_once-done (none, s) s' h = ap (λ x. (none, x)) (done_once_inj h)
  after_once-done (some e, s) s' h = cc

  -- The run that a configuration and its client lead to.
  abbrev pub Completes : Connect P → Settings → P.State → P.State → Type 0
  Completes connect d s s' =
      (maker : Client) × (new_client (backends_config d) ≡ some (ok maker))
      × ((client : StoreClient P) × (connect maker ≡ some (ok client))
          × AllSucceed P (template_config P d (some client)) s s')

  run_connected-done :
      (c : Settings) (r : Option (Result (StoreClient P))) (s s' : P.State)
      → run_connected P c r s ≡ done_once s'
      → (client : StoreClient P) × (r ≡ some (ok client))
        × (c.one_time ≡ true)
        × AllSucceed P (template_config P c (some client)) s s'
  unfolding run_connected run_with
  run_connected-done c none s s' h = cc
  run_connected-done c (some (err e)) s s' h = cc
  run_connected-done c (some (ok client)) s s' h =
      let config = template_config P c (some client) in
      let (once, k) = if_else c.one_time (λ l. cc) h in
      (client, refl, once, process_once-AllSucceed P config s s' (after_once-done _ s' k))

  run_created-done :
      (connect : Connect P) (d : Settings) (o : Option (Result Client)) (s s' : P.State)
      → new_client (backends_config d) ≡ o
      → run_created P connect d o s ≡ done_once s'
      → (d.one_time ≡ true) × Completes connect d s s'
  unfolding run_created
  run_created-done connect d none s s' e h = cc
  run_created-done connect d (some (err x)) s s' e h = cc
  run_created-done connect d (some (ok maker)) s s' e h =
      let (client, made, once, all) = run_connected-done d (connect maker) s s' h in
      (once, (maker, e, (client, made, all)))

  run_ready-done :
      (connect : Connect P) (o : Outcome) (s s' : P.State)
      → run_ready P connect o s ≡ done_once s'
      → (d : Settings) × (o ≡ ready d) × (d.one_time ≡ true) × Completes connect d s s'
  unfolding run_ready
  run_ready-done connect (ready d) s s' h =
      let (once, all) = run_created-done connect d _ s s' refl h in (d, refl, once, all)
  run_ready-done connect (failed e) s s' h = cc
  run_ready-done connect exits s s' h = cc

  -- Where the program ends with status 0 after one run, the configuration was accepted and asks for
  -- one run, a client was created from it, every resource was loaded, and the run of each, from the
  -- state that the one before left, returned no error. (Without a confd directory there is no
  -- resource.)
  pub main-done_once :
      (host : Host) (connect : Connect P) (c : Settings) (s s' : P.State)
      → main P host connect c s ≡ done_once s'
      → (d : Settings) × (init_config host c ≡ ready d)
        × (d.one_time ≡ true)
        × Completes connect d s s'
  unfolding main
  main-done_once host connect c s s' h =
      let (_, k) = if_then c.print_version (λ l. cc) h in
      run_ready-done connect (init_config host c) s s' k
