-- ===== src/Std/Exec.antt =====
-- Methods that change a state and may return an error: what was changed before the error stays.
use confd.Prelude.{◌≡◌, refl}
use confd.Std.Result.{Error, Result, ok, err}

abbrev pub Exec : Type 0 → Type 0 → Type 0
Exec S A = S → Result A × S

module _ {S A : Type 0} where
  abbrev pub pure : A → Exec S A
  pure a s = (ok a, s)

  abbrev pub raise : Error → Exec S A
  raise e s = (err e, s)

module _ {S A B : Type 0} where
  abbrev pub continue : Result A → (A → Exec S B) → Exec S B
  continue (ok a) f s = f a s
  continue (err e) f s = (err e, s)

  infixl 5 ◌>>=◌
  abbrev pub ◌>>=◌ : Exec S A → (A → Exec S B) → Exec S B
  ◌>>=◌ m f s = let (r, s') = m s in continue r f s'

module _ {S B : Type 0} where
  infixl 5 ◌>>◌
  abbrev pub ◌>>◌ : Exec S (Unit {0}) → Exec S B → Exec S B
  m >> k = m >>= λ _. k

module _ {S A B : Type 0} (Q : Result B × S → Type 0) where
  continue_cases :
      (r : Result A) (f : A → Exec S B) (s : S)
      → ((a : A) → r ≡ ok a → Q (f a s))
      → ((e : Error) → r ≡ err e → Q (err e, s))
      → Q (continue r f s)
  continue_cases (ok a) f s h k = h a refl
  continue_cases (err e) f s h k = k e refl

  -- A property of a chain, from what holds if its first call succeeds and if it fails.
  pub >>=_cases :
      (m : Exec S A) (f : A → Exec S B) (s : S)
      → ((a : A) → (m s).0 ≡ ok a → Q (f a (m s).1))
      → ((e : Error) → (m s).0 ≡ err e → Q (err e, (m s).1))
      → Q ((m >>= f) s)
  >>=_cases m f s h k = continue_cases (m s).0 f (m s).1 h k
