-- ===== src/Command/Reports/Order.antt =====
-- The channel loses no error and reports none twice.
use confd.Prelude.{
  ℕ, ◌+◌, ◌≤◌, ◌≡◌, refl, ap, ap₂, sym, ◌∙◌, Bool, true, false, List, [], ◌∷◌, ◌++◌, map, length,
  arith,
}
use confd.Std.Result.{Error}
use confd.Platform.{Platform}
use confd.Template.Processor.{Resources}
use confd.Template.Processor.Together.{Monitor, System, run, start, begin}
use confd.Command.Reports.Conserves.{
  times, times-append, pendings, monitors_of, free_at, after, Conserves, act_at-Conserves,
}
use confd.Command.Reports.{
  capacity, Senders, Program, Event, goroutine, listener, receive_from, step, run_program, idle,
  launch,
}

module _ (P : Platform) where
  -- The program stands where the goroutines without a channel would stand, and each error that they
  -- would have reported is logged, in the channel, or held by a goroutine, as often as it was reported.
  pub record Accounts (p : Program P) (sys : System P) : Type 0 where
    pub same_monitors : monitors_of P p.goroutines.senders ≡ sys.monitors
    pub same_outside : p.goroutines.outside ≡ sys.outside
    pub all_errors :
        (e : Error)
        → times e sys.reported
          ≡ times e p.logged
            + (times e p.goroutines.buffer + times e (pendings P p.goroutines.senders))
    pub fits : length p.goroutines.buffer ≤ capacity

  turns : ℕ → Bool → List ℕ
  turns i true = i ∷ []
  turns i false = []

  run-after :
      (b : Bool) (i : ℕ) (sys : System P)
      → run P (turns i b) sys ≡ after P b i sys.monitors sys.outside sys.reported
  unfolding turns run
  run-after true i sys = refl
  run-after false i sys = refl

  -- The program with its goroutines after a turn.
  turn-Accounts :
      (p : Program P) (reported : List Error) (all : Senders P) (sys : System P)
      → ((e : Error)
          → times e reported
            ≡ times e p.logged
              + (times e p.goroutines.buffer + times e (pendings P p.goroutines.senders)))
      → length p.goroutines.buffer ≤ capacity
      → Conserves P (pendings P p.goroutines.senders) p.goroutines.buffer reported all sys
      → Accounts (record p { goroutines = all }) sys
  turn-Accounts p reported all sys h g c = record {
    same_monitors = c.same_monitors;
    same_outside = c.same_outside;
    all_errors = λ e. omega (arith, c.same_errors e, h e);
    fits = c.fits g;
  }

  receive_from-Accounts :
      (buffer : List Error) (p : Program P) (sys : System P)
      → p.goroutines.buffer ≡ buffer
      → Accounts p sys
      → Accounts (receive_from P buffer p) sys
  unfolding receive_from
  receive_from-Accounts [] p sys h a = a
  receive_from-Accounts (x ∷ rest) p sys h a = record {
    same_monitors = a.same_monitors;
    same_outside = a.same_outside;
    all_errors = λ e.
        let one = times-append e p.logged (x ∷ []) in
        let first : times e p.goroutines.buffer ≡ times e (x ∷ rest) = ap (times e) h in
        ground (arith, one, first, a.all_errors e);
    fits = let lengths = ap length h in omega (arith, lengths, a.fits);
  }

  step-Accounts :
      (event : Event P) (p : Program P) (sys : System P)
      → Accounts p sys
      → (schedule : List ℕ) × Accounts (step P event p) (run P schedule sys)
  unfolding step run
  step-Accounts (goroutine i) p sys a =
      let all = p.goroutines in
      let free = free_at P i all.senders in
      let same_start : after P free i sys.monitors sys.outside sys.reported
          ≡ after P free i (monitors_of P all.senders) all.outside sys.reported =
        ap₂ (λ ms s. after P free i ms s sys.reported) (sym a.same_monitors) (sym a.same_outside) in
      (
        turns i free,
        rw (run-after free i sys ∙ same_start) (
            turn-Accounts p sys.reported _ _ a.all_errors a.fits
              (act_at-Conserves P i all.senders all.outside all.buffer sys.reported)),
      )
  step-Accounts listener p sys a = ([], receive_from-Accounts p.goroutines.buffer p sys refl a)

  run-append :
      (first second : List ℕ) (sys : System P)
      → run P (first ++ second) sys ≡ run P second (run P first sys)
  unfolding run
  run-append [] second sys = refl
  run-append (i ∷ first) second sys = run-append first second _

  run_on-Accounts :
      (events : List (Event P)) (p : Program P) (sys : System P)
      → Accounts p sys
      → (schedule : List ℕ) × Accounts (run_program P events p) (run P schedule sys)
  unfolding run_program run
  run_on-Accounts [] p sys a = ([], a)
  run_on-Accounts (event ∷ events) p sys a =
      let (first, b) = step-Accounts event p sys a in
      let (second, c) = run_on-Accounts events _ _ b in
      (first ++ second, rw (run-append first second sys) c)

  launched-Accounts : (ts : Resources P) (s : P.State) → Accounts (launch P ts s) (begin P ts s)
  unfolding launch begin idle
  launched-Accounts ts s = record {
    same_monitors = idle_monitors (map (start P) ts);
    same_outside = refl;
    all_errors = λ e.
        let none_held = ap (times e) (idle_pendings (map (start P) ts)) in omega (arith, none_held);
    fits = omega arith;
  }
    where
      idle_monitors : (ms : List (Monitor P)) → monitors_of P (map (idle P) ms) ≡ ms
      idle_monitors [] = refl
      idle_monitors (m ∷ ms) = ap (λ l. m ∷ l) (idle_monitors ms)

      idle_pendings : (ms : List (Monitor P)) → pendings P (map (idle P) ms) ≡ []
      idle_pendings [] = refl
      idle_pendings (m ∷ ms) = idle_pendings ms

  -- However the goroutines of the resources and the loop of `main` take turns, a schedule of the
  -- goroutines alone, with no channel between, leads to the same goroutines and the same machine; each
  -- error that it reports is logged, in the channel, or held by a goroutine, as often as it was reported
  -- and no oftener; and the channel holds ten errors at most.
  pub run_program-Accounts :
      (events : List (Event P)) (ts : Resources P) (s : P.State)
      → (schedule : List ℕ) × Accounts
          (run_program P events (launch P ts s))
          (run P schedule (begin P ts s))
  run_program-Accounts events ts s = run_on-Accounts events _ _ (launched-Accounts ts s)
