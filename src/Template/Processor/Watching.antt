-- ===== src/Template/Processor/Watching.antt =====
-- `watchProcessor.Process`: which resources are watched.
use confd.Prelude.{Option, none, some, [], ◌∷◌}
use confd.Std.Result.{Error}
use confd.Platform.{Platform}
use confd.Template.Resource.{Config, TemplateResource}
use confd.Template.Processor.{Resources, get_template_resources}

module _ (P : Platform) where
  -- The program ends by `log.Fatal`; `doneChan` is closed at once, as there is nothing to wait for;
  -- or a `monitorPrefix` starts for each resource, and the processor waits for them.
  pub data Watching : Type 0 where
    fatal : Error → Watching
    closed : Watching
    monitors : TemplateResource P → Resources P → Watching

  unfoldable pub watch_loaded : Resources P × Option Error → Watching
  watch_loaded (ts, some e) = fatal e
  watch_loaded ([], none) = closed
  watch_loaded (t ∷ ts, none) = monitors t ts

  -- `Process`
  unfoldable pub watch_process : Config P → P.State → Watching
  watch_process config s = watch_loaded (get_template_resources P config s)
