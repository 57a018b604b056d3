-- ===== src/Command/Main/Insecure.antt =====
-- The flag `-client-insecure`.
use confd.Prelude.{
  ◌≡◌, refl, sym, ap, ◌∙◌, Bool, true, false, not, ◌&&◌, Option, none, some, List, [],
  if◌then◌else◌,
}
use confd.Std.Text.{Text, codes, same}
use confd.Std.Result.{Result, ok, err, ◌>>=◌}
use confd.Platform.{Platform, StoreClient}
use confd.Backends.Choice.{Client, new_client}
use confd.Command.Settings.{Settings, backends_config, template_config}
use confd.Command.Config.{
  Host, Outcome, ready, failed, exits, process_env, load_file, name_record, use_record, with_scheme,
  fill_nodes, is_unsupported, check_settings, finish, bad_level, configure, configure_loaded,
  init_config,
}
use confd.Command.Main.{
  Connect, version_printed, run_with, choose_processor, run_connected, run_created, run_ready, main,
}

-- The settings with the flag given or not.
abbrev pub with_insecure : Bool → Settings → Settings
with_insecure b c = record c { client_insecure = b }

-- The same outcome, with the flag.
abbrev outcome_with : Bool → Outcome → Outcome
outcome_with b (ready c) = ready (with_insecure b c)
outcome_with b (failed e) = failed e
outcome_with b exits = exits

abbrev result_with : Bool → Result Settings → Result Settings
result_with b (ok c) = ok (with_insecure b c)
result_with b (err e) = err e

if_map :
    {A B : Type 0} (f : A → B) (t : Bool) (x y : A)
    → f (if t then x else y) ≡ (if t then f x else f y)
if_map f true x y = refl
if_map f false x y = refl

module _ (b : Bool) where
  name_record-with_insecure :
      (c : Settings) → name_record (with_insecure b c) ≡ with_insecure b (name_record c)
  unfolding name_record
  name_record-with_insecure c =
      sym (if_map (with_insecure b) (not (same c.srv_domain []) && same c.srv_record []) _ _)

  use_nodes :
      (r : Result (List Text)) (c : Settings) (nodes : List Text → List Text)
      → (do found ← r; ok (record (with_insecure b c) { backend_nodes = nodes found }))
        ≡ result_with b (do found ← r; ok (record c { backend_nodes = nodes found }))
  use_nodes (ok found) c nodes = refl
  use_nodes (err e) c nodes = refl

  use_record-with_insecure :
      (host : Host) (c : Settings)
      → use_record host (with_insecure b c) ≡ result_with b (use_record host c)
  unfolding use_record with_scheme
  use_record-with_insecure host c =
      let named = not (same c.backend (codes "env")) && not (same c.srv_record []) in
      ap (λ r. if named then r else ok (with_insecure b c)) (use_nodes _ c (with_scheme c))
      ∙ sym (if_map (result_with b) named _ _)

  check_settings-with_insecure :
      (c : Settings) → check_settings (with_insecure b c) ≡ outcome_with b (check_settings c)
  unfolding check_settings
  check_settings-with_insecure c =
      let bare = same c.backend [] in
      let no_table = same c.backend (codes "dynamodb") && same c.table [] in
      sym (
        if_map (outcome_with b) (c.watch && is_unsupported c.backend) exits _
        ∙ ap (λ o. if c.watch && is_unsupported c.backend then exits else o)
            (if_map (outcome_with b) no_table (failed (codes "No DynamoDB table configured")) _
              ∙ ap (λ o. if no_table then failed (codes "No DynamoDB table configured") else o)
                  (if_map (outcome_with b) bare exits _)))

  finish-with_insecure :
      (host : Host) (r : Result Settings)
      → finish host (result_with b r) ≡ outcome_with b (finish host r)
  unfolding finish fill_nodes
  finish-with_insecure host (err e) = refl
  finish-with_insecure host (ok c) = check_settings-with_insecure _

  configure-with_insecure :
      (host : Host) (c : Settings)
      → configure host (with_insecure b c) ≡ outcome_with b (configure host c)
  unfolding configure bad_level
  configure-with_insecure host c =
      ap (λ o. if bad_level host c then exits else o)
        (ap (λ d. finish host (use_record host d)) (name_record-with_insecure c)
          ∙ ap (finish host) (use_record-with_insecure host (name_record c))
          ∙ finish-with_insecure host (use_record host (name_record c)))
      ∙ sym (if_map (outcome_with b) (bad_level host c) exits _)

  load_file_missing :
      (host : Host) (c : Settings) → host.exists c.config_file ≡ false → load_file host c ≡ ok c
  unfolding load_file
  load_file_missing host c e =
      ap (λ t. if t then (do text ← host.read_file c.config_file; host.decode text c) else ok c) e

  init_config-with_insecure :
      (host : Host) (c : Settings)
      → host.exists c.config_file ≡ false
      → init_config host (with_insecure b c) ≡ outcome_with b (init_config host c)
  unfolding init_config configure_loaded process_env
  init_config-with_insecure host c e =
      ap (configure_loaded host) (load_file_missing host (with_insecure b c) e)
      ∙ configure-with_insecure host (process_env host c)
      ∙ sym (ap (λ r. outcome_with b (configure_loaded host r)) (load_file_missing host c e))

module _ (P : Platform) (b : Bool) where
  run_created-with_insecure :
      (connect : Connect P) (c : Settings) (o : Option (Result Client)) (s : P.State)
      → run_created P connect (with_insecure b c) o s ≡ run_created P connect c o s
  unfolding run_created run_connected run_with choose_processor template_config
  run_created-with_insecure connect c none s = refl
  run_created-with_insecure connect c (some (err e)) s = refl
  run_created-with_insecure connect c (some (ok client)) s = go (connect client)
    where
      go :
          (r : Option (Result (StoreClient P)))
          → run_connected P (with_insecure b c) r s ≡ run_connected P c r s
      go none = refl
      go (some (err e)) = refl
      go (some (ok client)) = refl

  run_ready-with_insecure :
      (connect : Connect P) (o : Outcome) (s : P.State)
      → run_ready P connect (outcome_with b o) s ≡ run_ready P connect o s
  unfolding run_ready backends_config
  run_ready-with_insecure connect (ready c) s =
      run_created-with_insecure connect c (new_client (backends_config c)) s
  run_ready-with_insecure connect (failed e) s = refl
  run_ready-with_insecure connect exits s = refl

  -- Where there is no configuration file, the flag `-client-insecure` makes no difference to the
  -- program: it sets a field that the client of the backend is not created from.
  pub main-with_insecure :
      (host : Host) (connect : Connect P) (c : Settings) (s : P.State)
      → host.exists c.config_file ≡ false
      → main P host connect (with_insecure b c) s ≡ main P host connect c s
  unfolding main
  main-with_insecure host connect c s e =
      ap (λ o. if c.print_version then version_printed else run_ready P connect o s)
        (init_config-with_insecure b host c e)
      ∙ ap (λ r. if c.print_version then version_printed else r)
          (run_ready-with_insecure connect (init_config host c) s)
