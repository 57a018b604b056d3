-- ===== src/Template/Processor/Watch.antt =====
-- `watchProcessor.monitorPrefix`, run for a number of rounds of its endless loop.
use confd.Prelude.{ℕ, zero, suc, ◌≡◌, refl, ap, Option, some, List, [], ◌∷◌}
use mathlib.Core.Path.{subst}
use confd.Std.Text.{Text}
use confd.Std.Result.{Error, Result, ok, err}
use confd.Util.{append_prefix}
use confd.Platform.{Platform}
use confd.Template.Resource.{World}
use confd.Template.Resource.Run.{process}
use confd.Template.Resource.Run.Settings.{Settings, process-settings}
use confd.Template.Processor.{error_of}

-- One round: the index that the backend was asked from, its answer, and the error that was sent
-- to `errChan`, if any.
pub record Round : Type 0 where
  pub asked : ℕ
  pub answer : Result ℕ
  pub reported : Option Error

module _ (P : Platform) where
  unfoldable pub process_at : World P → ℕ → P.State → Option Error × World P
  process_at w index s =
      let (r, w') =
        process P (record { resource = record (w.resource) { last_index = index }; outside = s }) in
      (error_of r, w')

  unfoldable pub after_watch : World P → Result ℕ × P.State → Round × World P
  after_watch w (err e, s) = (
    record { asked = w.resource.last_index; answer = err e; reported = some e },
    record w { outside = s },
  )
  after_watch w (ok index, s) =
      let (e, w') = process_at w index s in
      (record { asked = w.resource.last_index; answer = ok index; reported = e }, w')

  -- One iteration of the loop.
  unfoldable pub monitor_step : List Text → World P → Round × World P
  monitor_step keys w =
      let t = w.resource in
      after_watch w (t.store_client.watch_prefix t.prefix keys t.last_index w.outside)

  pub monitor_rounds : ℕ → List Text → World P → List Round × World P
  monitor_rounds zero keys w = ([], w)
  monitor_rounds (suc n) keys w =
      let (round, w') = monitor_step keys w in
      let (rounds, w'') = monitor_rounds n keys w' in (round ∷ rounds, w'')

  -- `monitorPrefix`, for the given number of rounds.
  pub monitor_prefix : ℕ → World P → List Round × World P
  monitor_prefix n w = monitor_rounds n (append_prefix w.resource.prefix w.resource.keys) w

-- The index to go on from: that of a successful answer, or the old one.
abbrev pub next_index : ℕ → Result ℕ → ℕ
next_index i (ok j) = j
next_index i (err e) = i

-- An error of the backend is reported as it is.
abbrev pub Reports : Result ℕ → Option Error → Type 0
Reports (ok j) o = Unit
Reports (err e) o = o ≡ some e

-- Each round asks from where the last successful answer stopped.
abbrev pub IsChain : ℕ → List Round → Type 0
IsChain i [] = Unit
IsChain i (r ∷ rs) =
    (r.asked ≡ i) × Reports r.answer r.reported × IsChain (next_index i r.answer) rs

module _ (P : Platform) where
  after_watch-index :
      (w : World P) (answer : Result ℕ × P.State)
      → (after_watch P w answer).1.resource.last_index
        ≡ next_index w.resource.last_index (after_watch P w answer).0.answer
  unfolding after_watch process_at
  after_watch-index w (err e, s) = refl
  after_watch-index w (ok index, s) =
      ap (λ (x : Settings P). x.4)
        (process-settings P
          (record { resource = record (w.resource) { last_index = index }; outside = s }))

  after_watch-Reports :
      (w : World P) (answer : Result ℕ × P.State)
      → ((after_watch P w answer).0.asked ≡ w.resource.last_index)
        × Reports (after_watch P w answer).0.answer (after_watch P w answer).0.reported
  unfolding after_watch
  after_watch-Reports w (err e, s) = (refl, refl)
  after_watch-Reports w (ok index, s) = (refl, tt)

  monitor_rounds-IsChain :
      (n : ℕ) (keys : List Text) (w : World P)
      → IsChain w.resource.last_index (monitor_rounds P n keys w).0
  unfolding monitor_rounds monitor_step
  monitor_rounds-IsChain zero keys w = tt
  monitor_rounds-IsChain (suc n) keys w =
      let t = w.resource in
      let answer = t.store_client.watch_prefix t.prefix keys t.last_index w.outside in
      let (asked, reports) = after_watch-Reports w answer in
      (
        asked,
        reports,
        subst (λ (i : ℕ). IsChain i (monitor_rounds P n keys (after_watch P w answer).1).0)
            (after_watch-index w answer) (monitor_rounds-IsChain n keys (after_watch P w answer).1),
      )

  -- For any number of rounds the backend is watched from the index at which its last successful
  -- answer stopped, the first time from the index of the resource, and each error of the backend
  -- is reported unchanged. So no index is skipped, and a failure does not lose the place.
  pub monitor_prefix-IsChain :
      (n : ℕ) (w : World P) → IsChain w.resource.last_index (monitor_prefix P n w).0
  unfolding monitor_prefix
  monitor_prefix-IsChain n w = monitor_rounds-IsChain n _ w
