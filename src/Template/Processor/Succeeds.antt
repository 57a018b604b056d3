-- ===== src/Template/Processor/Succeeds.antt =====
-- When `Process` returns no error.
use confd.Prelude.{◌≡◌, refl, ap, ◌≢◌, Option, none, some, [], ◌∷◌}
use mathlib.Core.Path.{subst}
use confd.Std.Result.{Error, Result, ok, err}
use confd.Platform.{Platform}
use confd.Template.Resource.{Config, TemplateResource, World}
use confd.Template.Resource.Run.{process}
use confd.Template.Processor.{
  Resources, latest, error_of, get_template_resources, process_from, process_all, process_loaded,
  process_once,
}

module _ (P : Platform) where
  -- The resources are run one after the other, from a state to a state, and none returns an error.
  pub data Succeed : Resources P → P.State → P.State → Type 0 where
    finished : {s : P.State} → Succeed [] s s
    run :
        {t : TemplateResource P} {ts : Resources P} {s s' : P.State} {w : World P}
        → process P (record { resource = t; outside = s }) ≡ (ok tt, w)
        → Succeed ts w.outside s'
        → Succeed (t ∷ ts) s s'

  process_from-some :
      (e : Error) (ts : Resources P) (s s' : P.State) → process_from P (some e) ts s ≢ (none, s')
  unfolding process_from
  process_from-some e [] s s' h = cc
  process_from-some e (t ∷ ts) s s' h =
      go (λ x z. process_from-some x ts z s') (process P (record { resource = t; outside = s })) h
    where
      go :
          ((x : Error) (z : P.State) → process_from P (some x) ts z ≢ (none, s'))
          → (r : Result (Unit {0}) × World P)
          → process_from P (latest (some e) (error_of r.0)) ts r.1.outside ≢ (none, s')
      go rest (ok _, w) = rest e w.outside
      go rest (err x, w) = rest x w.outside

  process_from-Succeed :
      (ts : Resources P) (s s' : P.State) → process_from P none ts s ≡ (none, s') → Succeed ts s s'
  unfolding process_from
  process_from-Succeed [] s s' h = subst (Succeed [] s) (ap (λ r. r.1) h) finished
  process_from-Succeed (t ∷ ts) s s' h =
      go (λ z. process_from-Succeed ts z s') (process P (record { resource = t; outside = s })) refl
        h
    where
      go :
          ((z : P.State) → process_from P none ts z ≡ (none, s') → Succeed ts z s')
          → (r : Result (Unit {0}) × World P) → process P (record { resource = t; outside = s }) ≡ r
          → process_from P (latest none (error_of r.0)) ts r.1.outside ≡ (none, s')
          → Succeed (t ∷ ts) s s'
      go rest (ok _, w) e k = run e (rest w.outside k)
      go rest (err x, w) e k = absurd (process_from-some x ts w.outside s' k)

  -- All resources of a configuration are loaded, and all succeed.
  abbrev pub AllSucceed : Config P → P.State → P.State → Type 0
  AllSucceed config s s' =
      (ts : Resources P) × (get_template_resources P config s ≡ (ts, none)) × Succeed ts s s'

  pub process_once-AllSucceed :
      (config : Config P) (s s' : P.State)
      → process_once P config s ≡ (none, s')
      → AllSucceed config s s'
  unfolding process_once process_loaded process_all
  process_once-AllSucceed config s s' = go (get_template_resources P config s) refl
    where
      go :
          (r : Resources P × Option Error)
          → get_template_resources P config s ≡ r
          → process_loaded P r s ≡ (none, s')
          → AllSucceed config s s'
      go (ts, some e) g h = cc
      go (ts, none) g h = (ts, g, process_from-Succeed ts s s' h)
