-- ===== src/Std/Result.antt =====
-- Go's `(value, error)` results. An `error` is the text that its method `Error` gives.
use confd.Prelude.{◌≡◌, ap}
use confd.Std.Text.{Text}

abbrev pub Error : Type 0
Error = Text

pub data Result {ℓ} (A : Type ℓ) : Type ℓ where
  err : Error → Result A
  ok : A → Result A

module _ {ℓ} {A : Type ℓ} where
  -- A result with its error message put in a context, `fmt.Errorf("… %s", err.Error())`.
  abbrev pub map_error : (Error → Error) → Result A → Result A
  map_error context (err e) = err (context e)
  map_error context (ok a) = ok a

  pub ok_inj : {a b : A} → ok a ≡ ok b → a ≡ b
  ok_inj {a} h = ap (λ (r : Result A). elim r [ ok x ↦ x | err _ ↦ a ]) h

-- `if err != nil { return err }` after a call, and then the rest.
module _ {ℓ κ} {A : Type ℓ} {B : Type κ} where
  infixl 5 ◌>>=◌
  abbrev pub ◌>>=◌ : Result A → (A → Result B) → Result B
  ◌>>=◌ (err e) rest = err e
  ◌>>=◌ (ok a) rest = rest a

infixl 5 ◌>>◌
abbrev pub ◌>>◌ {ℓ} : {B : Type ℓ} → Result (Unit {0}) → Result B → Result B
◌>>◌ first next = first >>= λ _. next
