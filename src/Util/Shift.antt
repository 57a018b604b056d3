-- ===== src/Util/Shift.antt =====
-- What `ArrayShift` does.
use confd.Prelude.{
  ℕ, zero, suc, ◌≤◌, ◌≡◌, refl, ap, true, false, none, some, List, [], ◌∷◌, ◌++◌, arith, length,
  take, drop, leb, if◌then◌else◌, length-append, Bool-cases, inl, inr, leb→le,
}
use confd.Std.Text.{Text}
use confd.Util.{copy, put_at, array_shift}

abbrev grown : List Text → List Text
grown array = array ++ [] ∷ []

abbrev shifted : List Text → ℕ → List Text
shifted array position =
    take (suc position) (grown array)
    ++ copy (drop (suc position) (grown array)) (drop position (grown array))

copy_shift : (x : Text) (xs : List Text) → copy (grown xs) (x ∷ grown xs) ≡ x ∷ xs
unfolding copy
copy_shift x [] = refl
copy_shift x (y ∷ ys) = ap (λ (l : List Text). x ∷ l) (copy_shift y ys)

put_at-shifted :
    (array : List Text) (position : ℕ) (value : Text)
    → position ≤ length array
    → put_at (shifted array position) position value
      ≡ take position array ++ (value ∷ drop position array)
unfolding put_at copy
put_at-shifted [] zero value h = refl
put_at-shifted [] (suc p) value h = absurd (omega arith)
put_at-shifted (x ∷ xs) zero value h = ap (λ (l : List Text). value ∷ l) (copy_shift x xs)
put_at-shifted (x ∷ xs) (suc p) value h =
    ap (λ (l : List Text). x ∷ l) (put_at-shifted xs p value (omega arith))

-- `ArrayShift` inserts the value at the position and keeps all else, in order, where the position
-- is at most the length. Where it lies behind the end, and only there, it panics.
pub array_shift_lem :
    (array : List Text) (position : ℕ) (value : Text)
    → array_shift array position value ≡ (
        if leb position (length array)
        then some (take position array ++ (value ∷ drop position array))
        else none)
unfolding array_shift
array_shift_lem array position value = elim (Bool-cases (leb position (length array))) [
  | inl h ↦
      rw (fits h)
        (rw h (ap some (put_at-shifted array position value (leb→le position (length array) h))))
  | inr h ↦ rw (overflows h) (rw h refl)
]
  where
    fits : leb position (length array) ≡ true → leb (suc position) (length (grown array)) ≡ true
    fits h = ground (arith, length-append array ([] ∷ []))

    overflows :
        leb position (length array) ≡ false → leb (suc position) (length (grown array)) ≡ false
    overflows h = ground (arith, length-append array ([] ∷ []))
