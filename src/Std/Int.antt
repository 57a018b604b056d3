-- ===== src/Std/Int.antt =====
-- Go's signed integers.
use confd.Prelude.{ℕ, Bool, false, ◌==◌, ℕ_discrete}

-- `negsuc n` is -(n + 1).
pub data ℤ : Type 0 where
  pos : ℕ → ℤ
  negsuc : ℕ → ℤ

abbrev pub minus_one : ℤ
minus_one = negsuc 0

abbrev pub is_minus_one : ℤ → Bool
is_minus_one (pos n) = false
is_minus_one (negsuc n) = n == 0

pub ℤ-discrete : Discrete ℤ
ℤ-discrete = hlevel ℕ_discrete
