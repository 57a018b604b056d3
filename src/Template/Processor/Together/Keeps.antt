-- ===== src/Template/Processor/Together/Keeps.antt =====
-- The files that the goroutines leave alone.
use confd.Prelude.{ℕ, zero, suc, ◌≡◌, refl, sym, ap, ◌∙◌, ◌≢◌, some, List, [], ◌∷◌, map, All}
use mathlib.Core.Path.{subst}
use confd.Std.Text.{Text}
use confd.Std.Result.{Error, Result, ok, err}
use confd.Platform.{Platform, File, StoreClient}
use confd.Platform.Laws.{FileModel}
use confd.Template.Resource.{TemplateResource, World}
use confd.Template.Resource.Stage.{create_stage_file}
use confd.Template.Resource.Stage.Frame.{
  create_stage_file-file, create_stage_file-NamesFresh, NamesFresh,
}
use confd.Template.Resource.Run.Keeps.{IsQuiet, Calm, Calm-settings, set_vars-outside, sync-file}
use confd.Template.Resource.Run.Settings.{
  Settings, settings, set_file_mode-settings, set_file_mode-outside, set_vars-settings,
  create_stage_file-settings, sync-settings,
}
use confd.Template.Processor.{Resources}
use confd.Template.Processor.Together.{
  Phase, watches, reads_mode, reads_values, stages, syncs, Monitor, Turn, System, advance, call,
  receive, move_at, move, before, taken, take_turn, run, start, begin,
}

-- A backend whose watches change no file.
pub record WatchesQuietly {P : Platform} (M : FileModel P) (c : StoreClient P) : Type 0 where
  pub watch_prefix-file :
      (prefix : Text) (keys : List Text) (index : ℕ) (s : P.State) (q : Text)
      → M.file q (c.watch_prefix prefix keys index s).1 ≡ M.file q s

module _ (P : Platform) (M : FileModel P) (q : Text) where
  -- A resource that may not touch the file: it is in noop mode, or runs no command and has another
  -- destination, and its backend changes no file.
  pub record Spares (t : TemplateResource P) : Type 0 where
    pub calm : Calm P M t q
    pub reads : IsQuiet M t.store_client
    pub waits : WatchesQuietly M t.store_client

  Spares-settings : (t u : TemplateResource P) → settings u ≡ settings t → Spares t → Spares u
  Spares-settings t u e h = record {
    calm = Calm-settings P M t u q e h.calm;
    reads = subst (IsQuiet M) (sym (ap (λ (x : Settings P). x.3) e)) h.reads;
    waits = subst (WatchesQuietly M) (sym (ap (λ (x : Settings P). x.3) e)) h.waits;
  }

  -- Before `sync`, the staged file is another one.
  abbrev StagedApart : Phase → TemplateResource P → Type 0
  StagedApart syncs t = (temp : Text) × (t.stage_file ≡ some temp) × (temp ≢ q)
  StagedApart _ t = Unit {0}

  abbrev IsSafe : Monitor P → Type 0
  IsSafe m = Spares m.resource × StagedApart m.phase m.resource

  -- What a turn leaves: the goroutine is safe, and the file is as it was.
  abbrev Leaves : File → Turn P → Type 0
  Leaves f turn = IsSafe turn.monitor × (M.file q turn.outside ≡ some f)

  receive-Leaves :
      (f : File) (m : Monitor P) (answer : Result ℕ × P.State)
      → Spares m.resource
      → M.file q answer.1 ≡ some f
      → Leaves f (receive P m answer)
  unfolding receive
  receive-Leaves f m (err e, s) h k = ((h, tt), k)
  receive-Leaves f m (ok index, s) h k =
      ((record { calm = h.calm; reads = h.reads; waits = h.waits }, tt), k)

  advance-Leaves :
      (f : File) (m : Monitor P) (next : Phase) (r : Result (Unit {0})) (w : World P)
      → settings w.resource ≡ settings m.resource
      → Spares m.resource
      → (r ≡ ok tt → StagedApart next w.resource)
      → M.file q w.outside ≡ some f
      → Leaves f (advance P m next (r, w))
  unfolding advance
  advance-Leaves f m next (ok _) w e h a k =
      ((Spares-settings m.resource w.resource e h, a refl), k)
  advance-Leaves f m next (err x) w e h a k = ((Spares-settings m.resource w.resource e h, tt), k)

  staged_apart :
      (w : World P) (f : File) (r : Result (Unit {0}) × World P)
      → NamesFresh P M w q r
      → M.file q w.outside ≡ some f
      → r.0 ≡ ok tt
      → StagedApart syncs r.1.resource
  staged_apart w f (ok _, w') (temp, named, fresh) h e = (temp, named, fresh f h)
  staged_apart w f (err x, w') n h e = cc

  move_at-Leaves :
      (f : File) (phase : Phase) (m : Monitor P) (s : P.State)
      → Spares m.resource
      → StagedApart phase m.resource
      → M.file q s ≡ some f
      → Leaves f (move_at P phase m s)
  unfolding move_at call
  move_at-Leaves f watches m s h a k =
      receive-Leaves f m _ h (h.waits.watch_prefix-file _ m.keys m.resource.last_index s q ∙ k)
  move_at-Leaves f reads_mode m s h a k =
      let w : World P = record { resource = m.resource; outside = s } in
      advance-Leaves f m reads_values _ _ (set_file_mode-settings P w) h (λ e. tt)
        (ap (M.file q) (set_file_mode-outside P w) ∙ k)
  move_at-Leaves f reads_values m s h a k =
      let w : World P = record { resource = m.resource; outside = s } in
      advance-Leaves f m stages _ _ (set_vars-settings P w) h (λ e. tt)
        (set_vars-outside P M w q h.reads ∙ k)
  move_at-Leaves f stages m s h a k =
      let w : World P = record { resource = m.resource; outside = s } in
      advance-Leaves f m syncs _ _ (create_stage_file-settings P w) h
        (staged_apart w f (create_stage_file P w) (create_stage_file-NamesFresh P M w q) k)
        (create_stage_file-file P M w q f k)
  move_at-Leaves f syncs m s h (temp, named, apart) k =
      let w : World P = record { resource = m.resource; outside = s } in
      advance-Leaves f m watches _ _ (sync-settings P w) h (λ e. tt)
        (sync-file P M w temp q named apart h.calm ∙ k)

  abbrev Kept : File → System P → Type 0
  Kept f sys = All IsSafe sys.monitors × (M.file q sys.outside ≡ some f)

  take_turn-Kept :
      (f : File) (i : ℕ) (ms : List (Monitor P)) (s : P.State) (errors : List Error)
      → All IsSafe ms
      → M.file q s ≡ some f
      → Kept f (take_turn P i ms s errors)
  unfolding take_turn taken before move
  take_turn-Kept f i [] s errors h k = (tt, k)
  take_turn-Kept f zero (m ∷ ms) s errors ((h, a), hs) k =
      let (safe, same) = move_at-Leaves f m.phase m s h a k in ((safe, hs), same)
  take_turn-Kept f (suc i) (m ∷ ms) s errors (h, hs) k =
      let (safe, same) = take_turn-Kept f i ms s errors hs k in ((h, safe), same)

  run_from-Kept :
      (f : File) (schedule : List ℕ) (sys : System P) → Kept f sys → Kept f (run P schedule sys)
  unfolding run
  run_from-Kept f [] sys h = h
  run_from-Kept f (i ∷ schedule) sys (h, k) =
      run_from-Kept f schedule _ (take_turn-Kept f i sys.monitors sys.outside sys.reported h k)

  start-IsSafe : (ts : Resources P) → All Spares ts → All IsSafe (map (start P) ts)
  unfolding start
  start-IsSafe [] h = tt
  start-IsSafe (t ∷ ts) (h, hs) = ((h, tt), start-IsSafe ts hs)

  -- However the goroutines take turns, a file that was there when they started is as it was, where
  -- each resource is in noop mode, or is set to sync only and has another destination, and reading
  -- from its backend and waiting for it change no file.
  pub run-file :
      (f : File) (schedule : List ℕ) (ts : Resources P) (s : P.State)
      → All Spares ts
      → M.file q s ≡ some f
      → M.file q (run P schedule (begin P ts s)).outside ≡ some f
  unfolding begin
  run-file f schedule ts s h k = (run_from-Kept f schedule _ (start-IsSafe ts h, k)).1
