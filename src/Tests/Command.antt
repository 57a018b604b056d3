-- ===== src/Tests/Command.antt =====
-- The configuration and the main loop at concrete inputs.
use confd.Prelude.{◌≡◌, refl, some, true, false, List, [], ◌∷◌, ◌≢◌}
use confd.Std.Text.{codes, text_dec}
use confd.Std.Result.{ok, err}
use confd.Std.Path.{path_join}
use confd.Platform.Memory.{memory}
use confd.Command.Main
use confd.Command.Main.{Connect, main}
use confd.Command.Main.Begins.{main-panicked}
use confd.Command.Main.Insecure.{with_insecure, main-with_insecure}
use confd.Tests.Samples.{client, config_disk}
use confd.Command.Config
use confd.Command.Settings.{Settings, flag_defaults}
use confd.Command.Config.{Host, ready, init_config}
use confd.Command.Config.Ready.{IsReady, init_config-IsReady}
use confd.Command.Loop.{
  Received, error, signal, done, finished, waits, panicked, main_loop, main_loop_lem,
}

-- The flags of a run with Vault that names no address, on a host with no file and no variables.
abbrev flags : Settings
flags = record flag_defaults { backend = codes "vault"; conf_dir = codes "/c"; watch = true }

abbrev pub host : Host
host = record {
  exists = λ path. false;
  read_file = λ path. err (codes "file does not exist");
  decode = λ text c. ok c;
  getenv = λ name. [];
  is_level = λ level. false;
  lookup_srv = λ record_name. err (codes "no such host");
  join_host_port = λ name port. name;
}

abbrev configured : Settings
configured = record flags {
  backend_nodes = codes "http://127.0.0.1:8200" ∷ [];
  config_dir = codes "/c/conf.d";
  template_dir = codes "/c/templates";
}

accepted : init_config host flags ≡ ready configured
unfolding init_config Config.configure_loaded Config.configure Config.bad_level Config.finish
    Config.load_file Config.use_record text_dec Config.name_record Config.process_env
    Config.check_settings Config.fill_nodes Config.is_unsupported Config.nodes_or Config.env_or
    path_join Config.default_nodes
accepted = refl

init_config-IsReady_example : IsReady configured
init_config-IsReady_example = init_config-IsReady host flags configured accepted

-- The processor returns, since there is nothing to watch, and a signal arrives.
abbrev nothing_to_watch : List Received
nothing_to_watch = finished ∷ error ∷ signal ∷ done ∷ []

main_loop_lem_example : main_loop nothing_to_watch (waits false) ≡ panicked
main_loop_lem_example = main_loop_lem nothing_to_watch

-- A client for each constructor, on the machine of the samples.
abbrev connect : Connect memory
connect _ = some (ok client)

main-panicked_example : main memory host connect flags config_disk ≢ Main.panicked
main-panicked_example = main-panicked memory host connect flags config_disk (λ maker h. cc)

no_file : host.exists flags.config_file ≡ false
no_file = refl

main-with_insecure_example :
    main memory host connect (with_insecure true flags) config_disk
    ≡ main memory host connect flags config_disk
main-with_insecure_example = main-with_insecure memory true host connect flags config_disk no_file
