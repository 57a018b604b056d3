-- ===== src/Template/Processor/Together.antt =====
-- The goroutines of `watchProcessor.Process`: one `monitorPrefix` for each resource. They share the
-- machine outside and `errChan`, and take turns in any order, between the calls that they make.
pub mod Alone
pub mod Trail
pub mod Keeps
use confd.Prelude.{ℕ, zero, suc, Option, none, some, List, [], ◌∷◌, ◌++◌, map}
use confd.Std.Text.{Text}
use confd.Std.Result.{Error, Result, ok, err}
use confd.Util.{append_prefix}
use confd.Platform.{Platform}
use confd.Template.Resource.{TemplateResource, World, Method}
use confd.Template.Resource.Vars.{set_vars, set_file_mode}
use confd.Template.Resource.Stage.{create_stage_file}
use confd.Template.Resource.Sync.{sync}
use confd.Template.Processor.{Resources}

-- The call that a goroutine makes next: it asks the backend, or goes through `process`.
pub data Phase : Type 0 where
  watches reads_mode reads_values stages syncs : Phase

-- What `errChan` gets.
abbrev pub sent : Option Error → List Error
sent none = []
sent (some e) = e ∷ []

module _ (P : Platform) where
  -- A goroutine: its resource, its keys with their prefix, its next call, and the index and the
  -- answer of each `WatchPrefix` so far, the last one first.
  pub record Monitor : Type 0 where
    pub resource : TemplateResource P
    pub keys : List Text
    pub phase : Phase
    pub answers : List (ℕ × Result ℕ)

  -- A goroutine with the machine, and the error that it has just sent, if any.
  pub record Turn : Type 0 where
    pub monitor : Monitor
    pub outside : P.State
    pub report : Option Error

  -- After a method: on to the next call, or the error is sent and the backend is asked again.
  unfoldable pub advance : Monitor → Phase → Result (Unit {0}) × World P → Turn
  advance m next (ok _, w) = record {
    monitor = record m { resource = w.resource; phase = next };
    outside = w.outside;
    report = none;
  }
  advance m next (err e, w) = record {
    monitor = record m { resource = w.resource; phase = watches };
    outside = w.outside;
    report = some e;
  }

  unfoldable pub call : Method P → Phase → Monitor → P.State → Turn
  call method next m s = advance m next (method (record { resource = m.resource; outside = s }))

  -- The answer of `WatchPrefix`: an error is sent, an index is kept and `process` begins.
  unfoldable pub receive : Monitor → Result ℕ × P.State → Turn
  receive m (err e, s) = record {
    monitor = record m { phase = watches; answers = (m.resource.last_index, err e) ∷ m.answers };
    outside = s;
    report = some e;
  }
  receive m (ok index, s) = record {
    monitor = record m {
      resource = record (m.resource) { last_index = index };
      phase = reads_mode;
      answers = (m.resource.last_index, ok index) ∷ m.answers;
    };
    outside = s;
    report = none;
  }

  unfoldable pub move_at : Phase → Monitor → P.State → Turn
  move_at watches m s =
      let t = m.resource in receive m (t.store_client.watch_prefix t.prefix m.keys t.last_index s)
  move_at reads_mode m s = call (set_file_mode P) reads_values m s
  move_at reads_values m s = call (set_vars P) stages m s
  move_at stages m s = call (create_stage_file P) syncs m s
  move_at syncs m s = call (sync P) watches m s

  -- One call of a goroutine.
  unfoldable pub move : Monitor → P.State → Turn
  move m s = move_at m.phase m s

  pub record System : Type 0 where
    pub monitors : List Monitor
    pub outside : P.State
    pub reported : List Error

  unfoldable pub before : Monitor → System → System
  before m sys = record sys { monitors = m ∷ sys.monitors }

  unfoldable pub taken : Turn → List Monitor → List Error → System
  taken turn ms errors = record {
    monitors = turn.monitor ∷ ms;
    outside = turn.outside;
    reported = errors ++ sent turn.report;
  }

  -- The goroutine at a place takes a turn; there may be none.
  unfoldable pub take_turn : ℕ → List Monitor → P.State → List Error → System
  take_turn i [] s errors = record { monitors = []; outside = s; reported = errors }
  take_turn zero (m ∷ ms) s errors = taken (move m s) ms errors
  take_turn (suc i) (m ∷ ms) s errors = before m (take_turn i ms s errors)

  -- A schedule: who takes a turn, one after the other.
  unfoldable pub run : List ℕ → System → System
  run [] sys = sys
  run (i ∷ schedule) sys = run schedule (take_turn i sys.monitors sys.outside sys.reported)

  unfoldable pub start : TemplateResource P → Monitor
  start t = record {
    resource = t;
    keys = append_prefix t.prefix t.keys;
    phase = watches;
    answers = [];
  }

  -- The goroutines that `Process` starts.
  unfoldable pub begin : Resources P → P.State → System
  begin ts s = record { monitors = map start ts; outside = s; reported = [] }
