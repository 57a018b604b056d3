-- ===== src/Tests/Reports.antt =====
-- Two watched resources whose errors go through the channel, in memory.
use confd.Prelude.{ℕ, ◌≡◌, refl, some, List, [], ◌∷◌, ◌++◌, true, false, arith}
use confd.Std.Text.{codes}
use confd.Std.Result.{Error}
use confd.Platform.Memory.{memory}
use confd.Template.Processor.{Resources}
use confd.Template.Processor.Together.{Monitor, run, begin, start}
use confd.Command.Reports.{Program, Event, goroutine, listener, run_program, launch}
use confd.Command.Reports.Order.{Accounts, run_program-Accounts}
use confd.Command.Reports.Logged.{run_program-logged}
use confd.Tests.Samples.{disk, app}

abbrev both : Resources memory
both = app false true [] ∷ app true false [] ∷ []

abbrev events : List (Event memory)
events =
    goroutine 0
    ∷ goroutine 0
    ∷ goroutine 1
    ∷ listener
    ∷ goroutine 0
    ∷ goroutine 1
    ∷ goroutine 0
    ∷ listener
    ∷ []

run_program-Accounts_example :
    (schedule : List ℕ) × Accounts memory
      (run_program memory events (launch memory both disk))
      (run memory schedule (begin memory both disk))
run_program-Accounts_example = run_program-Accounts memory events both disk

monitor : Monitor memory
monitor = start memory (app false true [])

-- The only goroutine waits while the channel holds an error.
abbrev waiting : Program memory
waiting = record {
  goroutines = record {
    senders = record { monitor = monitor; pending = some (codes "second") } ∷ [];
    outside = disk;
    buffer = codes "first" ∷ [];
  };
  logged = [];
}

-- The goroutine finds room before the loop receives once.
abbrev sent_and_received : List (Event memory)
sent_and_received = goroutine 0 ∷ listener ∷ goroutine 0 ∷ []

run_program-logged_example :
    (later : List Error) × ((run_program memory sent_and_received waiting).logged
      ≡ [] ++ ((codes "first" ∷ []) ++ later))
run_program-logged_example =
    run_program-logged memory sent_and_received waiting (codes "first" ∷ []) [] refl (omega arith)
