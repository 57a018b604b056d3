-- ===== src/Template/Processor/Interval.antt =====
-- `intervalProcessor.Process`, run against what its `select` receives in each round.
use confd.Prelude.{◌≡◌, refl, Bool, false, Option, none, some, List, [], ◌∷◌, if◌then◌else◌}
use confd.Std.Result.{Error}
use confd.Platform.{Platform}
use confd.Template.Resource.{Config}
use confd.Template.Processor.{Resources, get_template_resources, process_all}

-- What `select` receives: a value of `stopChan`, or the timer's.
pub data Received : Type 0 where
  stop tick : Received

-- Whether the `for` loop is left. The `break` of the first case leaves the `select` only.
pub leaves_loop : Received → Bool
leaves_loop stop = false
leaves_loop tick = false

module _ (P : Platform) where
  -- The processor waits in its `select`, has returned (and closed `doneChan`), or has ended the
  -- program by `log.Fatal`.
  pub data Progress : Type 0 where
    waiting : P.State → Progress
    returned : P.State → Progress
    fatal : Error → P.State → Progress

  pub round_of : Resources P × Option Error → P.State → Progress
  round_of (ts, some e) s = fatal e s
  round_of (ts, none) s = waiting (process_all P ts s).1

  -- One iteration, up to the `select`.
  pub interval_round : Config P → P.State → Progress
  interval_round config s = round_of (get_template_resources P config s) s

  -- While the processor waits, the machine outside changes; then something is received.
  abbrev pub Wait : Type 0
  Wait = (P.State → P.State) × Received

  pub interval_step : Config P → Wait → Progress → Progress
  interval_step config (change, received) (waiting s) =
      if leaves_loop received then returned (change s) else interval_round config (change s)
  interval_step config wait (returned s) = returned s
  interval_step config wait (fatal e s) = fatal e s

  pub interval_from : Config P → List Wait → Progress → Progress
  interval_from config [] p = p
  interval_from config (wait ∷ waits) p = interval_from config waits (interval_step config wait p)

  -- `Process`
  pub interval_run : Config P → List Wait → P.State → Progress
  interval_run config waits s = interval_from config waits (interval_round config s)

  -- The same waits with each value of `stopChan` taken for the timer's.
  abbrev pub ticking : List Wait → List Wait
  ticking [] = []
  ticking ((change, _) ∷ waits) = (change, tick) ∷ ticking waits

  interval_step-tick :
      (config : Config P) (change : P.State → P.State) (r : Received) (p : Progress)
      → interval_step config (change, r) p ≡ interval_step config (change, tick) p
  unfolding interval_step leaves_loop
  interval_step-tick config change stop (waiting s) = refl
  interval_step-tick config change tick (waiting s) = refl
  interval_step-tick config change r (returned s) = refl
  interval_step-tick config change r (fatal e s) = refl

  interval_from-ticking :
      (config : Config P) (waits : List Wait) (p : Progress)
      → interval_from config waits p ≡ interval_from config (ticking waits) p
  unfolding interval_from
  interval_from-ticking config [] p = refl
  interval_from-ticking config ((change, r) ∷ waits) p =
      rw (interval_step-tick config change r p) (interval_from-ticking config waits _)

  -- A value of `stopChan` does what the timer does: it starts the next round.
  pub interval_run-ticking :
      (config : Config P) (waits : List Wait) (s : P.State)
      → interval_run config waits s ≡ interval_run config (ticking waits) s
  unfolding interval_run
  interval_run-ticking config waits s = interval_from-ticking config waits _

  -- The processor has not returned.
  abbrev pub GoesOn : Progress → Type 0
  GoesOn (waiting s) = Unit
  GoesOn (returned s) = ⊥
  GoesOn (fatal e s) = Unit

  interval_round-GoesOn : (config : Config P) (s : P.State) → GoesOn (interval_round config s)
  unfolding interval_round round_of
  interval_round-GoesOn config s = go (get_template_resources P config s)
    where
      go : (l : Resources P × Option Error) → GoesOn (round_of l s)
      go (ts, none) = tt
      go (ts, some e) = tt

  interval_step-GoesOn :
      (config : Config P) (wait : Wait) (p : Progress)
      → GoesOn p
      → GoesOn (interval_step config wait p)
  unfolding interval_step leaves_loop
  interval_step-GoesOn config (change, stop) (waiting s) h = interval_round-GoesOn config (change s)
  interval_step-GoesOn config (change, tick) (waiting s) h = interval_round-GoesOn config (change s)
  interval_step-GoesOn config wait (returned s) h = h
  interval_step-GoesOn config wait (fatal e s) h = h

  interval_from-GoesOn :
      (config : Config P) (waits : List Wait) (p : Progress)
      → GoesOn p
      → GoesOn (interval_from config waits p)
  unfolding interval_from
  interval_from-GoesOn config [] p h = h
  interval_from-GoesOn config (wait ∷ waits) p h =
      interval_from-GoesOn config waits _ (interval_step-GoesOn config wait p h)

  -- Whatever is received, and a value of `stopChan` too, the processor never returns: after any
  -- number of rounds it waits for the next one, or a failed load has ended the program.
  pub interval_run-GoesOn :
      (config : Config P) (waits : List Wait) (s : P.State) → GoesOn (interval_run config waits s)
  unfolding interval_run
  interval_run-GoesOn config waits s =
      interval_from-GoesOn config waits _ (interval_round-GoesOn config s)
