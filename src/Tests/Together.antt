-- ===== src/Tests/Together.antt =====
-- Two watched resources that take turns, in memory.
use confd.Prelude.{ℕ, ◌≡◌, refl, inl, inr, ◌≢◌, true, false, some, List, [], ◌∷◌, All, arith}
use confd.Std.Text.{codes, text_dec}
use confd.Std.Dict.{lookup}
use confd.Platform.Memory.{memory}
use confd.Platform.Memory.Lawful.{memory-FileModel, file-memory}
use confd.Template.Processor.{Resources}
use confd.Template.Processor.Together.{Monitor, watches, move, run, begin, start}
use confd.Template.Processor.Together.Alone.{go_on, after_answer, go_on-process}
use confd.Template.Processor.Together.Trail.{AllInStep, run-AllInStep}
use confd.Template.Processor.Together.Keeps.{Spares, run-file}
use confd.Tests.Samples.{text_file, conf, hosts, disk, app}

abbrev both : Resources memory
both = app false true [] ∷ app true false [] ∷ []

-- The second one asks while the first one is in the middle of its run.
abbrev schedule : List ℕ
schedule = 0 ∷ 0 ∷ 1 ∷ 0 ∷ 1 ∷ 1 ∷ 0 ∷ 1 ∷ 0 ∷ 1 ∷ 7 ∷ []

run-AllInStep_example :
    AllInStep memory both (run memory schedule (begin memory both disk)).monitors
run-AllInStep_example = run-AllInStep memory schedule both disk

hosts_apart : conf ≢ hosts
hosts_apart h = ground arith

hosts_there : memory-FileModel.file hosts disk ≡ some (text_file (codes "h"))
unfolding lookup text_dec
hosts_there = file-memory hosts disk

both_spare : All (Spares memory memory-FileModel hosts) both
both_spare = (
  record {
    calm = inr (refl, hosts_apart);
    reads = record { get_values-file = λ keys s q. refl };
    waits = record { watch_prefix-file = λ prefix keys index s q. refl };
  },
  (
    record {
      calm = inl refl;
      reads = record { get_values-file = λ keys s q. refl };
      waits = record { watch_prefix-file = λ prefix keys index s q. refl };
    },
    tt,
  ),
)

run-file_example :
    memory-FileModel.file hosts (run memory schedule (begin memory both disk)).outside
    ≡ some (text_file (codes "h"))
run-file_example =
    run-file memory memory-FileModel hosts (text_file (codes "h")) schedule both disk both_spare
      hosts_there

first : Monitor memory
unfolding start
first = start memory (app false true [])

first_watches : first.phase ≡ watches
unfolding first start
first_watches = refl

go_on-process_example :
    go_on memory 4 (move memory first disk)
    ≡ after_answer memory first (
        first.resource.store_client.watch_prefix first.resource.prefix first.keys
          first.resource.last_index disk)
go_on-process_example = go_on-process memory first disk first_watches
