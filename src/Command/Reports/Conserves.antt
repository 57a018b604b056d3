-- ===== src/Command/Reports/Conserves.antt =====
-- A turn of a goroutine with the channel, beside its turn without one.
use confd.Prelude.{
  ℕ, zero, suc, ◌+◌, ◌≤◌, ◌≡◌, refl, ap, Bool, true, false, Option, none, some, List, [], ◌∷◌, ◌++◌,
  map, length, ltb, if◌then◌else◌, arith, Bool-cases, inl, inr, length-append,
}
use confd.Std.Text.{same}
use confd.Std.Result.{Error}
use confd.Platform.{Platform}
use confd.Template.Processor.Together.{Monitor, System, sent, move, taken, before, take_turn}
use confd.Command.Reports.{capacity, Sender, Senders, moved, act, behind, act_at}

-- How often an error stands in a list.
abbrev pub times : Error → List Error → ℕ
times e [] = 0
times e (x ∷ xs) = if same e x then suc (times e xs) else times e xs

pub times-append : (e : Error) (xs ys : List Error) → times e (xs ++ ys) ≡ times e xs + times e ys
times-append e [] ys = omega arith
times-append e (x ∷ xs) ys = let rest = times-append e xs ys in ground (arith, rest)

module _ (P : Platform) where
  -- The errors that the goroutines hold.
  abbrev pub pendings : List (Sender P) → List Error
  pendings [] = []
  pendings (x ∷ xs) = sent x.pending ++ pendings xs

  abbrev pub monitors_of : List (Sender P) → List (Monitor P)
  monitors_of xs = map (λ x. x.monitor) xs

  -- Whether the goroutine at a place is about to make a call.
  abbrev pub is_free : Option Error → Bool
  is_free none = true
  is_free (some e) = false

  abbrev pub free_at : ℕ → List (Sender P) → Bool
  free_at i [] = false
  free_at zero (x ∷ xs) = is_free x.pending
  free_at (suc i) (x ∷ xs) = free_at i xs

  abbrev pub here : List (Monitor P) → P.State → List Error → System P
  here ms s errors = record { monitors = ms; outside = s; reported = errors }

  -- The turn of a goroutine with no channel, where it makes a call.
  abbrev pub after : Bool → ℕ → List (Monitor P) → P.State → List Error → System P
  after true i ms s errors = take_turn P i ms s errors
  after false i ms s errors = here ms s errors

  -- A turn with the channel does what the turn without it does, and keeps the number of each error.
  pub record Conserves (pending buffer errors : List Error) (all : Senders P) (sys : System P)
      : Type 0 where
    pub same_monitors : monitors_of all.senders ≡ sys.monitors
    pub same_outside : all.outside ≡ sys.outside
    pub same_errors :
        (e : Error)
        → times e all.buffer + (times e (pendings all.senders) + times e errors)
          ≡ times e buffer + (times e pending + times e sys.reported)
    pub fits : length buffer ≤ capacity → length all.buffer ≤ capacity

  act-Conserves :
      (o : Option Error) (m : Monitor P) (xs : List (Sender P)) (s : P.State)
      (buffer errors : List Error)
      → Conserves
          (sent o ++ pendings xs)
          buffer
          errors
          (act P o m xs s buffer)
          (after (is_free o) 0 (m ∷ monitors_of xs) s errors)
  unfolding act moved take_turn taken
  act-Conserves none m xs s buffer errors = record {
    same_monitors = refl;
    same_outside = refl;
    same_errors = λ e.
        let a = times-append e (sent (move P m s).report) (pendings xs) in
        let b = times-append e errors (sent (move P m s).report) in omega (arith, a, b);
    fits = λ h. h;
  }
  act-Conserves (some x) m xs s buffer errors = elim (Bool-cases (ltb (length buffer) capacity)) [
    | inl l ↦ rw l (record {
      same_monitors = refl;
      same_outside = refl;
      same_errors = λ e. let a = times-append e buffer (x ∷ []) in ground (arith, a);
      fits = λ h. let a = length-append buffer (x ∷ []) in ground (arith, a, l);
    })
    | inr l ↦ rw l (record {
      same_monitors = refl;
      same_outside = refl;
      same_errors = λ e. refl;
      fits = λ h. h;
    })
  ]

  after-before :
      (b : Bool) (i : ℕ) (m : Monitor P) (ms : List (Monitor P)) (s : P.State) (errors : List Error)
      → after b (suc i) (m ∷ ms) s errors ≡ before P m (after b i ms s errors)
  unfolding take_turn before
  after-before true i m ms s errors = refl
  after-before false i m ms s errors = refl

  behind-Conserves :
      (x : Sender P) (pending buffer errors : List Error) (all : Senders P) (sys : System P)
      → Conserves pending buffer errors all sys
      → Conserves
          (sent x.pending ++ pending)
          buffer
          errors
          (behind P x all)
          (before P x.monitor sys)
  unfolding behind before
  behind-Conserves x pending buffer errors all sys c = record {
    same_monitors = ap (λ ms. x.monitor ∷ ms) c.same_monitors;
    same_outside = c.same_outside;
    same_errors = λ e.
        let a = times-append e (sent x.pending) pending in
        let b = times-append e (sent x.pending) (pendings all.senders) in
        omega (arith, a, b, c.same_errors e);
    fits = c.fits;
  }

  pub act_at-Conserves :
      (i : ℕ) (xs : List (Sender P)) (s : P.State) (buffer errors : List Error)
      → Conserves
          (pendings xs)
          buffer
          errors
          (act_at P i xs s buffer)
          (after (free_at i xs) i (monitors_of xs) s errors)
  unfolding act_at
  act_at-Conserves i [] s buffer errors = record {
    same_monitors = refl;
    same_outside = refl;
    same_errors = λ e. refl;
    fits = λ h. h;
  }
  act_at-Conserves zero (x ∷ xs) s buffer errors =
      act-Conserves x.pending x.monitor xs s buffer errors
  act_at-Conserves (suc i) (x ∷ xs) s buffer errors =
      rw (after-before (free_at i xs) i x.monitor (monitors_of xs) s errors)
        (behind-Conserves x _ _ _ _ _ (act_at-Conserves i xs s buffer errors))
