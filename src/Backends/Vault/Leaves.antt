-- ===== src/Backends/Vault/Leaves.antt =====
-- What `flatten` sets.
use confd.Prelude.{◌≡◌, refl, ◌∙◌, ap, sym, [], ◌∷◌, ◌++◌}
use confd.Std.Text.{Text}
use confd.Std.Dict.{Dict, insert}
use confd.Backends.Vault.{
  Value, Fields, text, number, object, sequence, other, stop, field, member, flatten,
  flatten_fields,
}

-- The strings of a value that are reached through objects, each with its path.
mutual
  pub strings : Text → Value → Dict Text
  strings key (text t) = (key, t) ∷ []
  strings key (object fields) = field_strings key fields
  strings key (number n) = []
  strings key (sequence values) = []
  strings key other = []

  pub field_strings : Text → Fields → Dict Text
  field_strings key stop = []
  field_strings key (field k value fields) =
      strings (member key k) value ++ field_strings key fields

abbrev pub set_each : Dict Text → Dict Text → Dict Text
set_each [] vars = vars
set_each ((k, v) ∷ entries) vars = set_each entries (insert k v vars)

set_each-append :
    (xs ys vars : Dict Text) → set_each (xs ++ ys) vars ≡ set_each ys (set_each xs vars)
set_each-append [] ys vars = refl
set_each-append ((k, v) ∷ xs) ys vars = set_each-append xs ys (insert k v vars)

mutual
  unfolding flatten strings

  flatten_onto :
      (key : Text) (value : Value) (vars : Dict Text)
      → flatten key value vars ≡ set_each (strings key value) vars
  flatten_onto key (text t) vars = refl
  flatten_onto key (object fields) vars = flatten_fields_lem key fields vars
  flatten_onto key (number n) vars = refl
  flatten_onto key (sequence values) vars = refl
  flatten_onto key other vars = refl

  pub flatten_fields_lem :
      (key : Text) (fields : Fields) (vars : Dict Text)
      → flatten_fields key fields vars ≡ set_each (field_strings key fields) vars
  flatten_fields_lem key stop vars = refl
  flatten_fields_lem key (field k value fields) vars =
      ap (flatten_fields key fields) (flatten_onto (member key k) value vars)
      ∙ flatten_fields_lem key fields (set_each (strings (member key k) value) vars)
      ∙ sym (set_each-append (strings (member key k) value) (field_strings key fields) vars)

-- `flatten` sets each string of the value that is reached through objects alone, under the path
-- of keys that leads to it, and nothing else: numbers and lists are passed over.
pub flatten_lem :
    (key : Text) (value : Value) (vars : Dict Text)
    → flatten key value vars ≡ set_each (strings key value) vars
flatten_lem = flatten_onto
