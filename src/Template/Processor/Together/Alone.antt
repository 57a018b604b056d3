-- ===== src/Template/Processor/Together/Alone.antt =====
-- A goroutine that is left alone goes through one round, with all of `process`.
use confd.Prelude.{ℕ, zero, suc, ◌≡◌, refl, ap, ◌∙◌, Bool, true, false, some, ◌∷◌}
use confd.Std.Result.{Result, ok, err}
use confd.Std.Exec.{◌>>◌}
use confd.Platform.{Platform}
use confd.Template.Resource.{World, Method}
use confd.Template.Resource.Vars.{set_vars, set_file_mode}
use confd.Template.Resource.Stage.{create_stage_file}
use confd.Template.Resource.Sync.{sync}
use confd.Template.Resource.Run.{process}
use confd.Template.Processor.{error_of}
use confd.Template.Processor.Together.{
  Phase, watches, reads_mode, reads_values, stages, syncs, Monitor, Turn, advance, call, receive,
  move_at, move,
}

unfoldable pub is_watching : Phase → Bool
is_watching watches = true
is_watching _ = false

module _ (P : Platform) where
  -- The goroutine takes turns until it is to ask the backend again, at most so many.
  unfoldable pub go_on : ℕ → Turn P → Turn P
  go_on zero turn = turn
  go_on (suc n) turn = elim (is_watching turn.monitor.phase) [
    | true ↦ turn
    | false ↦ go_on n (move P turn.monitor turn.outside)
  ]

  -- The goroutine after a run of its resource.
  abbrev end_of : Monitor P → Result (Unit {0}) × World P → Turn P
  end_of m (r, w) = record {
    monitor = record m { resource = w.resource; phase = watches };
    outside = w.outside;
    report = error_of r;
  }

  -- The goroutine after the answer of its backend: an error is reported, and after an index,
  -- which is kept, all of `process` is run.
  abbrev pub after_answer : Monitor P → Result ℕ × P.State → Turn P
  after_answer m (err e, s) = record {
    monitor = record m { phase = watches; answers = (m.resource.last_index, err e) ∷ m.answers };
    outside = s;
    report = some e;
  }
  after_answer m (ok index, s) =
      let (r, w) =
        process P (record { resource = record (m.resource) { last_index = index }; outside = s }) in
      record {
        monitor = record m {
          resource = w.resource;
          phase = watches;
          answers = (m.resource.last_index, ok index) ∷ m.answers;
        };
        outside = w.outside;
        report = error_of r;
      }

  -- One method, and then the rest of `process`.
  call-then :
      (method rest : Method P) (next : Phase) (n : ℕ) (m : Monitor P) (s : P.State)
      → is_watching next ≡ false
      → ((u : Monitor P) (z : P.State)
          → go_on n (move_at P next u z)
            ≡ end_of u (rest (record { resource = u.resource; outside = z })))
      → go_on (suc n) (call P method next m s)
        ≡ end_of m ((method >> rest) (record { resource = m.resource; outside = s }))
  unfolding call advance go_on move is_watching
  call-then method rest next n m s e h = go (method (record { resource = m.resource; outside = s }))
    where
      go :
          (r : Result (Unit {0}) × World P)
          → go_on (suc n) (advance P m next r) ≡ end_of m (((λ (w : World P). r) >> rest) r.1)
      go (ok _, w) = rw e (h (record m { resource = w.resource; phase = next }) w.outside)
      go (err x, w) = refl

  syncs-end :
      (m : Monitor P) (s : P.State)
      → go_on 0 (move_at P syncs m s)
        ≡ end_of m (sync P (record { resource = m.resource; outside = s }))
  unfolding go_on move_at call advance
  syncs-end m s = go (sync P (record { resource = m.resource; outside = s }))
    where
      go : (r : Result (Unit {0}) × World P) → advance P m watches r ≡ end_of m r
      go (ok _, w) = refl
      go (err x, w) = refl

  process-end :
      (m : Monitor P) (s : P.State)
      → go_on 3 (move_at P reads_mode m s)
        ≡ end_of m (process P (record { resource = m.resource; outside = s }))
  unfolding move_at process is_watching
  process-end m s =
      call-then (set_file_mode P) (set_vars P >> (create_stage_file P >> sync P)) reads_values 2 m s
        refl
        (λ m₁ s₁.
          call-then (set_vars P) (create_stage_file P >> sync P) stages 1 m₁ s₁ refl
            (λ m₂ s₂. call-then (create_stage_file P) (sync P) syncs 0 m₂ s₂ refl syncs-end))

  receive-end :
      (m : Monitor P) (r : Result ℕ × P.State) → go_on 4 (receive P m r) ≡ after_answer m r
  unfolding receive go_on is_watching move
  receive-end m (err x, s) = refl
  receive-end m (ok index, s) = process-end _ s

  -- Left alone, a goroutine that is to ask the backend is, within five calls, to ask it again. If
  -- the backend answered an error, it has reported that and changed nothing else. If the backend
  -- answered an index, its resource and the machine are those after `process` on the resource with
  -- that index as its last one, and it reports the error of `process`, if any.
  pub go_on-process :
      (m : Monitor P) (s : P.State)
      → m.phase ≡ watches
      → let t = m.resource in
        go_on 4 (move P m s)
        ≡ after_answer m (t.store_client.watch_prefix t.prefix m.keys t.last_index s)
  unfolding move move_at
  go_on-process m s e = ap (λ p. go_on 4 (move_at P p m s)) e ∙ receive-end m _
