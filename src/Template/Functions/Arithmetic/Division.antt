-- ===== src/Template/Functions/Arithmetic/Division.antt =====
-- Quotients and remainders of the function map.
use native.Mathlib.Nat as N
use confd.Prelude.{
  ℕ, ◌+◌, ◌-◌, ◌*◌, ◌/◌, ◌%◌, ◌^◌, ◌<◌, ◌≤◌, ◌≡◌, sym, ap, ◌∙◌, true, some, arith, if◌then◌else◌,
  Bool-cases, inl, inr, ◌⊎◌, ◌≢◌,
}
use confd.Template.Functions.Arithmetic.{
  patterns, is_negative, opposite, magnitude, quotient, remainder, int_add, int_mul, int_div,
  int_mod,
}

-- A multiple of two numbers whose sum is 2^64.
opposite_products : (u a b : ℕ) → u + a ≡ patterns → u * b % patterns ≡ opposite (a * b % patterns)
opposite_products u a b e =
    let sum : u * b + a * b ≡ patterns * b = sym (N.add-mul u a b) ∙ ap (λ x. x * b) e in
    omega (arith, sum)

-- A factor that has wrapped around.
mod_factor : (a b : ℕ) → (a % patterns * b) % patterns ≡ (a * b) % patterns
mod_factor a b =
    let split : a * b ≡ a % patterns * b + patterns * (a / patterns * b) =
      ap (λ x. x * b) (sym (N.mod-add-div a patterns))
      ∙ N.add-mul (a % patterns) (patterns * (a / patterns)) b
      ∙ ap (λ x. a % patterns * b + x) (N.mul_assoc patterns (a / patterns) b) in
    omega (arith, split)

-- `a` is `q` times `b` and `r` more.
abbrev IsSum : ℕ → ℕ → ℕ → ℕ → Type 0
IsSum a b q r = int_add (int_mul q b) r ≡ a

module _ (a b q r : ℕ) (e : q * b + r ≡ a) (h : a < patterns) where
  IsSum-both_positive : IsSum a b (q % patterns) r
  unfolding int_add int_mul
  IsSum-both_positive = let m = mod_factor q b in omega (arith, m)

  IsSum-negative :
      (z : ℕ) → z < patterns → z + a ≡ patterns → q ≤ patterns → IsSum z b (opposite q) (opposite r)
  unfolding int_add int_mul
  IsSum-negative z l k g =
      let m = mod_factor (patterns - q) b in
      let o = opposite_products (patterns - q) q b (omega arith) in omega (arith, m, o)

  IsSum-below : (c : ℕ) → b + c ≡ patterns → q ≤ patterns → IsSum a c (opposite q) r
  unfolding int_add int_mul
  IsSum-below c k g =
      let m = mod_factor (patterns - q) c in
      let o = opposite_products (patterns - q) q c (omega arith) in
      let o' = opposite_products c b q (omega (arith, k)) in omega (arith, m, o, o')

  IsSum-both_negative :
      (z c : ℕ)
      → z < patterns
      → z + a ≡ patterns
      → b + c ≡ patterns
      → IsSum z c (q % patterns) (opposite r)
  unfolding int_add int_mul
  IsSum-both_negative z c l k k' =
      let m = mod_factor q c in
      let o' = opposite_products c b q (omega (arith, k)) in omega (arith, m, o')

negative_le : (a : ℕ) → is_negative a ≡ true → 2 ^ 63 ≤ a
negative_le a e = ground arith

quotient-IsSum : (a b : ℕ) → a < patterns → b < patterns → IsSum a b (quotient a b) (remainder a b)
unfolding quotient remainder
quotient-IsSum a b h g =
    let whole = N.div-add-mod' (magnitude a) (magnitude b) in
    let below = N.div-le_self (magnitude a) (magnitude b) in
    elim (Bool-cases (is_negative a)) [
      | inl e ↦
          let l = negative_le a e in
          elim (Bool-cases (is_negative b)) [
            | inl e' ↦
                rw (e, e')
                  (IsSum-both_negative (patterns - a) (patterns - b) _ _ (rw (e, e') at whole)
                    (omega (arith, l)) a b h (omega arith) (omega arith))
            | inr e' ↦
                rw (e, e')
                  (IsSum-negative (patterns - a) b _ _ (rw (e, e') at whole) (omega (arith, l)) a h
                    (omega arith) (omega (arith, rw (e, e') at below)))
          ]
      | inr e ↦ elim (Bool-cases (is_negative b)) [
        | inl e' ↦
            rw (e, e')
              (IsSum-below a (patterns - b) _ _ (rw (e, e') at whole) h b (omega arith)
                (omega (arith, rw (e, e') at below)))
        | inr e' ↦ rw (e, e') (IsSum-both_positive a b _ _ (rw (e, e') at whole) h)
      ]
    ]

magnitude_bounds : (a : ℕ) → a < patterns → magnitude a ≤ 2 ^ 63
magnitude_bounds a h = ground arith

magnitude-quotient :
    (a b : ℕ)
    → a < patterns
    → (quotient a b < patterns) × (magnitude (quotient a b) ≡ magnitude a / magnitude b)
unfolding quotient
magnitude-quotient a b h =
    let below = N.div-le_self (magnitude a) (magnitude b) in
    let bound = magnitude_bounds a h in
    signed (magnitude a / magnitude b) (omega (arith, below, bound))
  where
    signed :
        (q : ℕ)
        → q ≤ 2 ^ 63
        → let x =
            if is_negative a
            then (if is_negative b then q % patterns else opposite q)
            else (if is_negative b then opposite q else q % patterns) in
          (x < patterns) × (magnitude x ≡ q)
    signed q g = ground arith

magnitude-remainder :
    (a b : ℕ)
    → b < patterns
    → b ≢ 0
    → (remainder a b < patterns)
      × ((magnitude (remainder a b) ≡ magnitude a % magnitude b)
          × ((magnitude (remainder a b) < magnitude b)
              × ((remainder a b ≡ 0) ⊎ (is_negative (remainder a b) ≡ is_negative a))))
unfolding remainder
magnitude-remainder a b h n =
    signed (magnitude a % magnitude b) (N.mod-lt (magnitude a) (ground arith))
  where
    signed :
        (r : ℕ)
        → r < magnitude b
        → let x = if is_negative a then opposite r else r in
          (x < patterns)
          × ((magnitude x ≡ r)
              × ((magnitude x < magnitude b) × ((x ≡ 0) ⊎ (is_negative x ≡ is_negative a))))
    signed r g = ground arith

-- `q` and `r` are a quotient and a remainder of `a` by `b`: in the wrapping arithmetic of the
-- function map, `q` times `b` plus `r` is `a`; the distances from 0 satisfy the same equation without
-- wrapping; and `r` is nearer to 0 than `b`, and is 0 or has the sign of `a`.
pub record IsDivision (a b q r : ℕ) : Type 0 where
  quotient_fits : q < patterns
  remainder_fits : r < patterns
  sum : int_add (int_mul q b) r ≡ a
  distances : magnitude q * magnitude b + magnitude r ≡ magnitude a
  small : magnitude r < magnitude b
  sign : (r ≡ 0) ⊎ (is_negative r ≡ is_negative a)

-- A division by an int that is not 0 does not panic: `div` returns a quotient and `mod` the
-- remainder. Both are ints, `q * b + r` wraps around to `a`, the distances from 0 satisfy the same
-- equation without wrapping, and `r` is nearer to 0 than `b`, and is 0 or has the sign of `a`.
pub int_div-int_mod :
    (a b : ℕ)
    → a < patterns
    → b < patterns
    → b ≢ 0
    → (q : ℕ) × (r : ℕ) × (int_div a b ≡ some q) × (int_mod a b ≡ some r) × IsDivision a b q r
unfolding int_div int_mod
int_div-int_mod a b h g n =
    let (q_fits, q_magnitude) = magnitude-quotient a b h in
    let (r_fits, (r_magnitude, (small, sign))) = magnitude-remainder a b g n in
    let whole = N.div-add-mod' (magnitude a) (magnitude b) in
    (
      quotient a b,
      remainder a b,
      ground arith,
      ground arith,
      record {
        quotient_fits = q_fits;
        remainder_fits = r_fits;
        sum = quotient-IsSum a b h g;
        distances = rw (q_magnitude, r_magnitude) whole;
        small = small;
        sign = sign;
      },
    )
