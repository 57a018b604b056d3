-- ===== src/Command/Reports/Logged.antt =====
-- The errors in the channel are logged.
use confd.Prelude.{
  ℕ, zero, suc, ◌≤◌, ◌≡◌, refl, ap, sym, ◌∙◌, List, [], ◌∷◌, ◌++◌, length, arith, append_assoc,
  append-nil, Option, none, some, Bool-cases, inl, inr, ltb,
}
use confd.Std.Result.{Error}
use confd.Platform.{Platform}
use confd.Template.Processor.Together.{Monitor}
use confd.Command.Reports.{
  capacity, moved, Sender, Program, Event, goroutine, listener, act, act_at, behind, receive_from,
  step, run_program,
}

module _ (P : Platform) where
  -- How often the loop of `main` receives.
  abbrev pub receptions : List (Event P) → ℕ
  receptions [] = 0
  receptions (goroutine i ∷ events) = receptions events
  receptions (listener ∷ events) = suc (receptions events)

  act-adds :
      (pending : Option Error) (m : Monitor P) (xs : List (Sender P)) (s : P.State)
      (buffer : List Error)
      → (more : List Error) × ((act P pending m xs s buffer).buffer ≡ buffer ++ more)
  unfolding act moved
  act-adds none m xs s buffer = ([], sym (append-nil buffer))
  act-adds (some e) m xs s buffer = elim (Bool-cases (ltb (length buffer) capacity)) [
    | inl h ↦ (e ∷ [], rw h refl)
    | inr h ↦ ([], rw h (sym (append-nil buffer)))
  ]

  -- A turn of a goroutine leaves the errors in the channel, and may put one behind them.
  act_at-adds :
      (i : ℕ) (xs : List (Sender P)) (s : P.State) (buffer : List Error)
      → (more : List Error) × ((act_at P i xs s buffer).buffer ≡ buffer ++ more)
  unfolding act_at behind
  act_at-adds i [] s buffer = ([], sym (append-nil buffer))
  act_at-adds zero (x ∷ xs) s buffer = act-adds x.pending x.monitor xs s buffer
  act_at-adds (suc i) (x ∷ xs) s buffer = act_at-adds i xs s buffer

  -- The channel after the loop of `main` received from it.
  receive_from-rest :
      (p : Program P) (buffer : List Error)
      → (more rest : List Error) × ((receive_from P buffer p).logged ≡ p.logged ++ more)
        × ((receive_from P buffer p).goroutines.buffer ≡ rest)
  unfolding receive_from
  receive_from-rest p [] = ([], p.goroutines.buffer, sym (append-nil p.logged), refl)
  receive_from-rest p (e ∷ rest) = (e ∷ [], rest, refl, refl)

  received-rest :
      (p : Program P) (x : Error) (rest : List Error)
      → (receive_from P (x ∷ rest) p).goroutines.buffer ≡ rest
  unfolding receive_from
  received-rest p x rest = refl

  received-logged :
      (p : Program P) (x : Error) (rest : List Error)
      → (receive_from P (x ∷ rest) p).logged ≡ p.logged ++ (x ∷ [])
  unfolding receive_from
  received-logged p x rest = refl

  -- Whatever the order in which the goroutines and the loop of `main` take their turns: the errors
  -- at the front of the channel are logged, next and in their order, once the loop has received as
  -- often as there are such errors.
  pub run_program-logged :
      (events : List (Event P)) (p : Program P) (front rest : List Error)
      → p.goroutines.buffer ≡ front ++ rest
      → length front ≤ receptions events
      → (later : List Error) × ((run_program P events p).logged ≡ p.logged ++ (front ++ later))
  unfolding run_program step
  run_program-logged [] p [] rest e h = ([], sym (append-nil p.logged))
  run_program-logged [] p (x ∷ front) rest e h = absurd (omega (arith, h))
  run_program-logged (goroutine i ∷ events) p front rest e h =
      let all = p.goroutines in
      let (more, added) = act_at-adds i all.senders all.outside all.buffer in
      run_program-logged events (step P (goroutine i) p) front (rest ++ more)
        (added ∙ ap (λ b. b ++ more) e ∙ append_assoc front rest more) h
  run_program-logged (listener ∷ events) p [] rest e h =
      let q = receive_from P p.goroutines.buffer p in
      let (more, left, l, b) = receive_from-rest p p.goroutines.buffer in
      let (later, r) = run_program-logged events q [] left b (omega arith) in
      (more ++ later, r ∙ ap (λ x. x ++ later) l ∙ append_assoc p.logged more later)
  run_program-logged (listener ∷ events) p (x ∷ front) rest e h =
      let q = receive_from P (x ∷ (front ++ rest)) p in
      let (later, r) =
        run_program-logged events q front rest (received-rest p x (front ++ rest))
          (omega (arith, h)) in
      (
        later,
        ap (λ b. (run_program P events (receive_from P b p)).logged) e
            ∙ r
            ∙ ap (λ l. l ++ (front ++ later)) (received-logged p x (front ++ rest))
            ∙ append_assoc p.logged (x ∷ []) (front ++ later),
      )
