-- ===== src/Template/Processor/Once.antt =====
-- One run over all resources: what it reports, and that no failure stops it.
use confd.Prelude.{
  ◌≡◌, refl, sym, ap, ◌∙◌, ◌≢◌, true, Option, none, some, List, [], ◌∷◌, ◌++◌, All, append-nil,
  append_assoc,
}
use confd.Std.Text.{Text, codes}
use confd.Std.Result.{Error, Result, ok, err}
use confd.Util.Files.{is_file_exist}
use confd.Util.Lookup.{recursive_files_lookup}
use confd.Platform.{Platform}
use confd.Template.Resource.{Config, TemplateResource}
use confd.Template.Resource.Load.{new_template_resource}
use confd.Template.Resource.Run.{process}
use confd.Template.Processor.{
  error_of, latest, Resources, load_step, load_all, load_found, get_template_resources,
  process_from, process_all, process_loaded, process_once,
}

module _ (P : Platform) where
  -- The runs of the resources one after the other: each starts where the one before ended,
  -- whether that failed or not.
  pub data Runs : Resources P → P.State → List (Option Error) → P.State → Type 0 where
    done : (s : P.State) → Runs [] s [] s
    next :
        {ts : Resources P} {es : List (Option Error)} {u : P.State} (t : TemplateResource P)
        (s : P.State)
        → Runs ts (process P (record { resource = t; outside = s })).1.outside es u
        → Runs (t ∷ ts) s (error_of (process P (record { resource = t; outside = s })).0 ∷ es) u

  -- The last error of a list of outcomes.
  abbrev pub last_error : Option Error → List (Option Error) → Option Error
  last_error last [] = last
  last_error last (e ∷ es) = last_error (latest last e) es

  process_from-Runs :
      (last : Option Error) (ts : Resources P) (s : P.State)
      → (es : List (Option Error)) × Runs ts s es (process_from P last ts s).1
        × ((process_from P last ts s).0 ≡ last_error last es)
  unfolding process_from
  process_from-Runs last [] s = ([], done s, refl)
  process_from-Runs last (t ∷ ts) s =
      let (es, runs, e) =
        process_from-Runs
          (latest last (error_of (process P (record { resource = t; outside = s })).0)) ts
          (process P (record { resource = t; outside = s })).1.outside in
      (_, next t s runs, e)

  -- `process` runs every resource, each on the state that the one before left, and returns the
  -- error of the last one that failed.
  pub process_all-Runs :
      (ts : Resources P) (s : P.State)
      → (es : List (Option Error)) × Runs ts s es (process_all P ts s).1
        × ((process_all P ts s).0 ≡ last_error none es)
  unfolding process_all
  process_all-Runs ts s = process_from-Runs none ts s

  last_error-some : (e : Error) (es : List (Option Error)) → last_error (some e) es ≢ none
  last_error-some e [] h = cc
  last_error-some e (none ∷ es) h = last_error-some e es h
  last_error-some e (some x ∷ es) h = last_error-some x es h

  last_error-none :
      (es : List (Option Error))
      → last_error none es ≡ none
      → All (λ (e : Option Error). e ≡ none) es
  last_error-none [] h = tt
  last_error-none (none ∷ es) h = (refl, last_error-none es h)
  last_error-none (some e ∷ es) h = absurd (last_error-some e es h)

  -- If `process` returns no error, no resource failed.
  pub process_all-none :
      (ts : Resources P) (s : P.State)
      → (process_all P ts s).0 ≡ none
      → (es : List (Option Error)) × Runs ts s es (process_all P ts s).1
        × All (λ (e : Option Error). e ≡ none) es
  process_all-none ts s h =
      let (es, runs, e) = process_all-Runs ts s in (es, runs, last_error-none es (sym e ∙ h))

  abbrev pub kept : Result (TemplateResource P) → Resources P → Resources P
  kept (ok t) ts = t ∷ ts
  kept (err e) ts = ts

  -- The resources that can be loaded, in the order of their files.
  abbrev pub loadable : Config P → List Text → P.State → Resources P
  loadable config [] s = []
  loadable config (path ∷ paths) s =
      kept (new_template_resource P path config s) (loadable config paths s)

  abbrev pub load_errors : Config P → List Text → P.State → List (Option Error)
  load_errors config [] s = []
  load_errors config (path ∷ paths) s =
      error_of (new_template_resource P path config s) ∷ load_errors config paths s

  load_all-eq :
      (config : Config P) (paths : List Text) (ts : Resources P) (last : Option Error) (s : P.State)
      → load_all P config paths (ts, last) s
        ≡ (ts ++ loadable config paths s, last_error last (load_errors config paths s))
  unfolding load_all load_step
  load_all-eq config [] ts last s = ap (λ (l : Resources P). (l, last)) (sym (append-nil ts))
  load_all-eq config (path ∷ paths) ts last s =
      go (new_template_resource P path config s) (λ ts' last'. load_all-eq config paths ts' last' s)
    where
      go :
          (r : Result (TemplateResource P))
          → ((ts' : Resources P) (last' : Option Error)
              → load_all P config paths (ts', last') s
                ≡ (ts' ++ loadable config paths s, last_error last' (load_errors config paths s)))
          → load_all P config paths (load_step P (ts, last) r) s ≡ (
            ts ++ kept r (loadable config paths s),
            last_error (latest last (error_of r)) (load_errors config paths s),
          )
      go (ok t) ih =
          ih (ts ++ t ∷ []) last
          ∙ ap (λ (l : Resources P). (l, last_error last (load_errors config paths s)))
              (append_assoc ts (t ∷ []) (loadable config paths s))
      go (err e) ih = ih ts (some e)

  -- The error with the state as it was, or the run of all resources.
  abbrev pub all_or_nothing : Option Error → Resources P → P.State → Option Error × P.State
  all_or_nothing (some e) ts s = (some e, s)
  all_or_nothing none ts s = process_all P ts s

  -- `Process` runs all resources or none: if the file of one cannot be loaded, the error of the
  -- last such file is returned and the state is as it was, although the others were loaded. If
  -- all can be loaded, all are run.
  pub process_once_lem :
      (config : Config P) (s : P.State) (paths : List Text)
      → is_file_exist P config.conf_dir s ≡ true
      → recursive_files_lookup P config.config_dir (codes "*toml") s ≡ ok paths
      → process_once P config s
        ≡ all_or_nothing (last_error none (load_errors config paths s)) (loadable config paths s) s
  unfolding process_once process_loaded get_template_resources load_found
  process_once_lem config s paths h k =
      simp (h, k)
        (rw (load_all-eq config paths [] none s)
          (go (last_error none (load_errors config paths s))))
    where
      go :
          (o : Option Error)
          → process_loaded P (loadable config paths s, o) s
            ≡ all_or_nothing o (loadable config paths s) s
      go none = refl
      go (some e) = refl
