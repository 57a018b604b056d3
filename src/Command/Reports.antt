-- ===== src/Command/Reports.antt =====
-- `errChan`, which holds ten errors, between the goroutines of `watchProcessor.Process` and the loop
-- of `main`: a goroutine waits with its error while the channel is full.
pub mod Conserves
pub mod Order
pub mod Logged
use confd.Prelude.{
  ℕ, zero, suc, Bool, true, false, Option, none, some, List, [], ◌∷◌, ◌++◌, map, length, ltb,
  if◌then◌else◌,
}
use confd.Std.Result.{Error}
use confd.Platform.{Platform}
use confd.Template.Processor.{Resources}
use confd.Template.Processor.Together.{Monitor, Turn, move, start}

-- `make(chan error, 10)`
abbrev pub capacity : ℕ
capacity = 10

module _ (P : Platform) where
  -- A goroutine, with the error that it is about to send.
  pub record Sender : Type 0 where
    pub monitor : Monitor P
    pub pending : Option Error

  -- The goroutines with the machine and the errors in the channel, the next one to be received first.
  pub record Senders : Type 0 where
    pub senders : List Sender
    pub outside : P.State
    pub buffer : List Error

  -- The whole, with the errors that the loop of `main` has logged.
  pub record Program : Type 0 where
    pub goroutines : Senders
    pub logged : List Error

  unfoldable pub moved : Turn P → List Sender → List Error → Senders
  moved turn xs buffer = record {
    senders = record { monitor = turn.monitor; pending = turn.report } ∷ xs;
    outside = turn.outside;
    buffer = buffer;
  }

  -- A turn of a goroutine: it sends the error that it holds, or makes its next call.
  unfoldable pub act : Option Error → Monitor P → List Sender → P.State → List Error → Senders
  act none m xs s buffer = moved (move P m s) xs buffer
  act (some e) m xs s buffer =
      if ltb (length buffer) capacity
      then record {
        senders = record { monitor = m; pending = none } ∷ xs;
        outside = s;
        buffer = buffer ++ (e ∷ []);
      }
      else record {
        senders = record { monitor = m; pending = some e } ∷ xs;
        outside = s;
        buffer = buffer;
      }

  unfoldable pub behind : Sender → Senders → Senders
  behind x all = record all { senders = x ∷ all.senders }

  -- A turn of the goroutine at a place; there may be none.
  unfoldable pub act_at : ℕ → List Sender → P.State → List Error → Senders
  act_at i [] s buffer = record { senders = []; outside = s; buffer = buffer }
  act_at zero (x ∷ xs) s buffer = act x.pending x.monitor xs s buffer
  act_at (suc i) (x ∷ xs) s buffer = behind x (act_at i xs s buffer)

  -- The loop of `main` receives an error and logs it, if there is one.
  unfoldable pub receive_from : List Error → Program → Program
  receive_from [] p = p
  receive_from (e ∷ rest) p = record {
    goroutines = record (p.goroutines) { buffer = rest };
    logged = p.logged ++ (e ∷ []);
  }

  -- Who takes a turn.
  pub data Event : Type 0 where
    goroutine : ℕ → Event
    listener : Event

  unfoldable pub step : Event → Program → Program
  step (goroutine i) p =
      let all = p.goroutines in
      record p { goroutines = act_at i all.senders all.outside all.buffer }
  step listener p = receive_from p.goroutines.buffer p

  unfoldable pub run_program : List Event → Program → Program
  run_program [] p = p
  run_program (event ∷ events) p = run_program events (step event p)

  unfoldable pub idle : Monitor P → Sender
  idle m = record { monitor = m; pending = none }

  -- `main` after the start of the processor, with the resources that it loaded.
  unfoldable pub launch : Resources P → P.State → Program
  launch ts s = record {
    goroutines = record { senders = map idle (map (start P) ts); outside = s; buffer = [] };
    logged = [];
  }
