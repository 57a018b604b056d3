-- ===== src/Std/Text/Prefix.antt =====
-- Laws of `HasPrefix` and `TrimPrefix`.
use confd.Prelude.{◌≡◌, refl, true, [], ◌∷◌, ◌++◌, arith, drop-append_self}
use confd.Std.Text.{Text, has_prefix, trim_prefix}

pub has_prefix-append : (p s : Text) → has_prefix (p ++ s) p ≡ true
unfolding has_prefix
has_prefix-append [] [] = refl
has_prefix-append [] (c ∷ s) = refl
has_prefix-append (c ∷ p) s = ground (arith, has_prefix-append p s)

-- A text with a prefix is the prefix and what is left of it.
pub has_prefix-split : (s p : Text) → has_prefix s p ≡ true → (rest : Text) × (s ≡ p ++ rest)
unfolding has_prefix
has_prefix-split s [] h = (s, refl)
has_prefix-split [] (c ∷ p) h = cc
has_prefix-split (c ∷ s) (d ∷ p) h =
    let (rest, e) = has_prefix-split s p (ground arith) in (rest, ground arith)

pub trim_prefix-append : (p s : Text) → trim_prefix (p ++ s) p ≡ s
unfolding trim_prefix
trim_prefix-append p s = rw (has_prefix-append p s) (drop-append_self p s)
