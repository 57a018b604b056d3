-- ===== src/Template/Functions/Maps.antt =====
-- `CreateMap`, over the values of a template.
use confd.Prelude.{◌%◌, Option, none, some, List, [], ◌∷◌, length, ◌==◌, if◌then◌else◌}
use confd.Std.Text.{Text, codes}
use confd.Std.Result.{Result, ok, err}
use confd.Std.Dict.{Dict, insert}

-- A value is a string or it is not.
module _ {Value : Type 0} (as_string : Value → Option Text) where
  -- The loop over the keys, each with the value behind it. A key without a value would be an index
  -- out of range; the length is even.
  unfoldable pub fill_map : List Value → Dict Value → Result (Dict Value)
  fill_map [] dict = ok dict
  fill_map (key ∷ []) dict = err (codes "panic: index out of range")
  fill_map (key ∷ value ∷ values) dict = elim (as_string key) [
    | none ↦ err (codes "map keys must be strings")
    | some k ↦ fill_map values (insert k value dict)
  ]

  -- `CreateMap`
  unfoldable pub create_map : List Value → Result (Dict Value)
  create_map values =
      if length values % 2 == 0 then fill_map values [] else err (codes "invalid map call")
