-- ===== src/Std/Text/Replace.antt =====
-- `strings.Replace` of one byte by another.
use confd.Prelude.{ℕ, ◌≡◌, refl, [], ◌∷◌, map, arith}
use confd.Std.Text.{Text, has_prefix, replace_all, replace_from, replace_byte}

replace_from-byte :
    (a b : ℕ) (s : Text) → replace_from 0 s (a ∷ []) (b ∷ []) ≡ map (replace_byte a b) s
unfolding replace_from replace_byte has_prefix
replace_from-byte a b [] = refl
replace_from-byte a b (c ∷ s) = ground (arith, replace_from-byte a b s)

pub replace_all-byte :
    (a b : ℕ) (s : Text) → replace_all s (a ∷ []) (b ∷ []) ≡ map (replace_byte a b) s
unfolding replace_all
replace_all-byte a b s = replace_from-byte a b s
