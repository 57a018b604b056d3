-- ===== src/Template/Functions/Arithmetic.antt =====
-- The arithmetic of the function map. An int of 64 bits stands by its pattern in two's complement,
-- a number below 2^64.
pub mod Division
use confd.Prelude.{
  ℕ, ◌+◌, ◌-◌, ◌*◌, ◌/◌, ◌%◌, ◌^◌, Bool, Option, none, some, leb, ◌==◌, if◌then◌else◌,
}

abbrev pub patterns : ℕ
patterns = 2 ^ 64

-- The sign bit.
abbrev pub is_negative : ℕ → Bool
is_negative a = leb (2 ^ 63) a

-- The number of the other sign; the least int is its own.
abbrev pub opposite : ℕ → ℕ
opposite a = (patterns - a) % patterns

-- The distance from 0.
abbrev pub magnitude : ℕ → ℕ
magnitude a = if is_negative a then patterns - a else a

-- The functions `add`, `sub` and `mul`, which wrap around.
unfoldable pub int_add : ℕ → ℕ → ℕ
int_add a b = (a + b) % patterns

unfoldable pub int_sub : ℕ → ℕ → ℕ
int_sub a b = (a + (patterns - b)) % patterns

unfoldable pub int_mul : ℕ → ℕ → ℕ
int_mul a b = (a * b) % patterns

-- A quotient is cut off towards 0, and a remainder has the sign of the dividend.
unfoldable pub quotient : ℕ → ℕ → ℕ
quotient a b =
    let q = magnitude a / magnitude b in
    if is_negative a
    then (if is_negative b then q % patterns else opposite q)
    else (if is_negative b then opposite q else q % patterns)

unfoldable pub remainder : ℕ → ℕ → ℕ
remainder a b = let r = magnitude a % magnitude b in if is_negative a then opposite r else r

-- The functions `div` and `mod`; `none` is the panic of a division by 0.
unfoldable pub int_div : ℕ → ℕ → Option ℕ
int_div a b = if b == 0 then none else some (quotient a b)

unfoldable pub int_mod : ℕ → ℕ → Option ℕ
int_mod a b = if b == 0 then none else some (remainder a b)
