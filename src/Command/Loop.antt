-- ===== src/Command/Loop.antt =====
-- cmd/confd/main.go: the loop of `main` over what its channels deliver, and the close of `doneChan`
-- by the processor.
use confd.Prelude.{◌≡◌, refl, Bool, true, false, Option, none, some, List, [], ◌∷◌, if◌then◌else◌}

-- What happens, in order: the select of the loop receives an error to be logged or a signal, finds
-- `doneChan` closed, or the processor returns, and closes `doneChan` as it does.
pub data Received : Type 0 where
  error : Received
  signal : Received
  done : Received
  finished : Received

-- The loop waits, and `doneChan` is closed or not; or the program has ended, by `os.Exit(0)` or by
-- the panic of a second `close`.
pub data Main : Type 0 where
  waits : Bool → Main
  exited : Main
  panicked : Main

-- `close(doneChan)`, which Go allows once.
pub close_done : Bool → Main
close_done closed = if closed then panicked else waits true

-- One step: a signal makes the loop close `doneChan`, the end of the processor makes it do so, and
-- the select receives from `doneChan` only where it is closed.
pub main_step : Received → Main → Main
main_step error (waits closed) = waits closed
main_step signal (waits closed) = close_done closed
main_step finished (waits closed) = close_done closed
main_step done (waits closed) = if closed then exited else waits false
main_step received exited = exited
main_step received panicked = panicked

pub main_loop : List Received → Main → Main
main_loop [] m = m
main_loop (received ∷ rest) m = main_loop rest (main_step received m)

-- What follows the first event that closes `doneChan`, if one does.
abbrev pub after_close : List Received → Option (List Received)
after_close [] = none
after_close (error ∷ rest) = after_close rest
after_close (done ∷ rest) = after_close rest
after_close (signal ∷ rest) = some rest
after_close (finished ∷ rest) = some rest

-- The first event that is no error.
abbrev pub first_event : List Received → Option Received
first_event [] = none
first_event (error ∷ rest) = first_event rest
first_event (signal ∷ rest) = some signal
first_event (done ∷ rest) = some done
first_event (finished ∷ rest) = some finished

-- How the program stands once `doneChan` is closed, by the event that comes next.
abbrev pub ending : Option Received → Main
ending none = waits true
ending (some error) = waits true
ending (some done) = exited
ending (some signal) = panicked
ending (some finished) = panicked

main_loop-exited : (rs : List Received) → main_loop rs exited ≡ exited
unfolding main_loop main_step
main_loop-exited [] = refl
main_loop-exited (r ∷ rs) = elim r [
  | error ↦ main_loop-exited rs
  | signal ↦ main_loop-exited rs
  | done ↦ main_loop-exited rs
  | finished ↦ main_loop-exited rs
]

main_loop-panicked : (rs : List Received) → main_loop rs panicked ≡ panicked
unfolding main_loop main_step
main_loop-panicked [] = refl
main_loop-panicked (r ∷ rs) = elim r [
  | error ↦ main_loop-panicked rs
  | signal ↦ main_loop-panicked rs
  | done ↦ main_loop-panicked rs
  | finished ↦ main_loop-panicked rs
]

main_loop-closed : (rs : List Received) → main_loop rs (waits true) ≡ ending (first_event rs)
unfolding main_loop main_step close_done
main_loop-closed [] = refl
main_loop-closed (error ∷ rs) = main_loop-closed rs
main_loop-closed (signal ∷ rs) = main_loop-panicked rs
main_loop-closed (done ∷ rs) = main_loop-exited rs
main_loop-closed (finished ∷ rs) = main_loop-panicked rs

-- Before a signal is received or the processor returns, the program goes on. After the first of
-- these, the next event other than an error decides: where the select finds `doneChan` closed, the
-- program exits, and where a signal is received or the processor returns first, `doneChan` is
-- closed again and the program panics.
pub main_loop_lem :
    (rs : List Received)
    → main_loop rs (waits false)
      ≡ elim (after_close rs) [ none ↦ waits false | some rest ↦ ending (first_event rest) ]
unfolding main_loop main_step close_done
main_loop_lem [] = refl
main_loop_lem (error ∷ rs) = main_loop_lem rs
main_loop_lem (done ∷ rs) = main_loop_lem rs
main_loop_lem (signal ∷ rs) = main_loop-closed rs
main_loop_lem (finished ∷ rs) = main_loop-closed rs
