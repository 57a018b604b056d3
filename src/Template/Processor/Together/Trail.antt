-- ===== src/Template/Processor/Together/Trail.antt =====
-- The indices at which each goroutine asks the backend.
use confd.Prelude.{ℕ, zero, suc, ◌≡◌, refl, ap, ◌∙◌, List, [], ◌∷◌, map}
use confd.Std.Result.{Error, Result, ok, err}
use confd.Platform.{Platform}
use confd.Template.Resource.{World}
use confd.Template.Resource.Run.Settings.{
  Settings, settings, set_file_mode-settings, set_vars-settings, create_stage_file-settings,
  sync-settings,
}
use confd.Template.Processor.{Resources}
use confd.Template.Processor.Together.{
  Phase, watches, reads_mode, reads_values, stages, syncs, Monitor, System, advance, call, receive,
  move_at, move, before, taken, take_turn, run, start, begin,
}

-- The index to go on from, given the answers so far, the last one first: that of the last
-- successful answer, or the first index.
abbrev pub index_after : ℕ → List (ℕ × Result ℕ) → ℕ
index_after i [] = i
index_after i ((asked, ok index) ∷ older) = index
index_after i ((asked, err e) ∷ older) = index_after i older

-- Each answer was asked for at the index after those before.
abbrev pub IsTrail : ℕ → List (ℕ × Result ℕ) → Type 0
IsTrail i [] = Unit
IsTrail i ((asked, answer) ∷ older) = (asked ≡ index_after i older) × IsTrail i older

module _ (P : Platform) where
  -- The goroutine has asked without a gap, and will ask next from where its last answer stopped.
  abbrev pub InStep : ℕ → Monitor P → Type 0
  InStep i m = (m.resource.last_index ≡ index_after i m.answers) × IsTrail i m.answers

  receive-InStep :
      (i : ℕ) (m : Monitor P) (answer : Result ℕ × P.State)
      → InStep i m
      → InStep i (receive P m answer).monitor
  unfolding receive
  receive-InStep i m (err e, s) (n, t) = (n, (n, t))
  receive-InStep i m (ok index, s) (n, t) = (refl, (n, t))

  advance-InStep :
      (i : ℕ) (m : Monitor P) (next : Phase) (r : Result (Unit {0})) (w : World P)
      → settings w.resource ≡ settings m.resource
      → InStep i m
      → InStep i (advance P m next (r, w)).monitor
  unfolding advance
  advance-InStep i m next (ok _) w e (n, t) = (ap (λ (x : Settings P). x.4) e ∙ n, t)
  advance-InStep i m next (err x) w e (n, t) = (ap (λ (x : Settings P). x.4) e ∙ n, t)

  move_at-InStep :
      (i : ℕ) (phase : Phase) (m : Monitor P) (s : P.State)
      → InStep i m
      → InStep i (move_at P phase m s).monitor
  unfolding move_at call
  move_at-InStep i watches m s h = receive-InStep i m _ h
  move_at-InStep i reads_mode m s h =
      advance-InStep i m reads_values _ _ (set_file_mode-settings P _) h
  move_at-InStep i reads_values m s h = advance-InStep i m stages _ _ (set_vars-settings P _) h
  move_at-InStep i stages m s h = advance-InStep i m syncs _ _ (create_stage_file-settings P _) h
  move_at-InStep i syncs m s h = advance-InStep i m watches _ _ (sync-settings P _) h

  -- So has each goroutine, from the index of its resource on.
  abbrev pub AllInStep : Resources P → List (Monitor P) → Type 0
  AllInStep [] [] = Unit
  AllInStep (t ∷ ts) (m ∷ ms) = InStep t.last_index m × AllInStep ts ms
  AllInStep _ _ = ⊥

  take_turn-AllInStep :
      (i : ℕ) (ts : Resources P) (ms : List (Monitor P)) (s : P.State) (errors : List Error)
      → AllInStep ts ms
      → AllInStep ts (take_turn P i ms s errors).monitors
  unfolding take_turn taken before move
  take_turn-AllInStep i [] [] s errors h = tt
  take_turn-AllInStep i [] (m ∷ ms) s errors h = absurd h
  take_turn-AllInStep i (t ∷ ts) [] s errors h = absurd h
  take_turn-AllInStep zero (t ∷ ts) (m ∷ ms) s errors (h, hs) =
      (move_at-InStep t.last_index m.phase m s h, hs)
  take_turn-AllInStep (suc i) (t ∷ ts) (m ∷ ms) s errors (h, hs) =
      (h, take_turn-AllInStep i ts ms s errors hs)

  run_from-AllInStep :
      (schedule : List ℕ) (ts : Resources P) (sys : System P)
      → AllInStep ts sys.monitors
      → AllInStep ts (run P schedule sys).monitors
  unfolding run
  run_from-AllInStep [] ts sys h = h
  run_from-AllInStep (i ∷ schedule) ts sys h =
      run_from-AllInStep schedule ts _
        (take_turn-AllInStep i ts sys.monitors sys.outside sys.reported h)

  start-AllInStep : (ts : Resources P) → AllInStep ts (map (start P) ts)
  unfolding start
  start-AllInStep [] = tt
  start-AllInStep (t ∷ ts) = ((refl, tt), start-AllInStep ts)

  -- However the goroutines of the resources take turns, each asks the backend from the index of its
  -- own last successful answer, the first time from the index of its resource: no index is skipped,
  -- and neither a failure of the backend nor one of a run, its own or another's, loses the place.
  pub run-AllInStep :
      (schedule : List ℕ) (ts : Resources P) (s : P.State)
      → AllInStep ts (run P schedule (begin P ts s)).monitors
  unfolding begin
  run-AllInStep schedule ts s = run_from-AllInStep schedule ts _ (start-AllInStep ts)
