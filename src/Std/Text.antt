-- ===== src/Std/Text.antt =====
-- Go strings as lists of bytes, and the functions of package `strings` that the program calls.
pub mod Prefix
pub mod Replace
use Prim.Native.Char.{code}
use Prim.Native.String.{String}
use mathlib.Core.Logic.{ite, dite}
use confd.Prelude.{
  ℕ, zero, suc, ◌+◌, ◌-◌, ◌≡◌, refl, sym, ap, ap₂, ◌≢◌, ◌↔◌, Bool, true, false, not, ◌&&◌, ◌||◌,
  Option, none, some, List, [], ◌∷◌, ◌++◌, map, arith, ltb, leb, ◌==◌, if◌then◌else◌, length, drop,
  ℕ_discrete,
}

abbrev pub Text : Type 0
Text = List ℕ

-- The bytes of an ASCII literal.
abbrev pub codes : String → Text
codes String.[] = []
codes (String.◌∷◌ c s) = code c ∷ codes s

-- `a == b` on strings.
unfoldable pub text_dec : Discrete Text
unfolding ℕ_discrete
text_dec [] [] = yes refl
text_dec [] (b ∷ bs) = no (λ h. cc)
text_dec (a ∷ as') [] = no (λ h. cc)
text_dec (a ∷ as') (b ∷ bs) =
    dite (ℕ_discrete a b)
      (λ e. dite (text_dec as' bs) (λ e'. yes (ap₂ ◌∷◌ e e')) (λ n. no (λ h. n (cc))))
      (λ n. no (λ h. n (cc)))

abbrev pub same : Text → Text → Bool
same s t = ite (text_dec s t) true false

-- `s != ""`
abbrev pub is_set : Text → Bool
is_set [] = false
is_set (c ∷ s) = true

pub same_iff : (s t : Text) → (same s t ≡ true) ↔ (s ≡ t)
same_iff s t = ground arith

pub same_ne : (s t : Text) → s ≢ t → same s t ≡ false
same_ne s t n = ground arith

pub same-of_iff : {a b c d : Text} → (a ≡ b → c ≡ d) → (c ≡ d → a ≡ b) → same a b ≡ same c d
same-of_iff f g = ground arith

-- `strings.HasPrefix(s, prefix)`
unfoldable pub has_prefix : Text → Text → Bool
has_prefix s [] = true
has_prefix [] (p ∷ ps) = false
has_prefix (c ∷ s) (p ∷ ps) = c == p && has_prefix s ps

-- `strings.HasSuffix(s, suffix)`
unfoldable pub has_suffix : Text → Text → Bool
has_suffix s t = leb (length t) (length s) && same (drop (length s - length t) s) t

-- `strings.TrimPrefix(s, prefix)`
unfoldable pub trim_prefix : Text → Text → Text
unfolding has_prefix
trim_prefix s p = if has_prefix s p then drop (length p) s else s

-- `strings.TrimRight(s, cut)` for a cut set of one byte.
unfoldable pub trim_right : Text → ℕ → Text
trim_right [] c = []
trim_right (x ∷ s) c =
    let rest = trim_right s c in
    elim rest [ [] ↦ (if x == c then [] else x ∷ []) | y ∷ ys ↦ x ∷ y ∷ ys ]

-- `strings.Index(s, sep)`; `none` stands for -1.
unfoldable pub index : Text → Text → Option ℕ
unfolding has_prefix
index [] sep = if has_prefix [] sep then some 0 else none
index (c ∷ s) sep =
    let rest = index s sep in
    if has_prefix (c ∷ s) sep then some 0 else elim rest [ none ↦ none | some i ↦ some (suc i) ]

-- `strings.Contains(s, sub)`
unfoldable pub contains : Text → Text → Bool
unfolding index
contains s sub = elim (index s sub) [ none ↦ false | some _ ↦ true ]

-- The text with `new` before each byte and at the end: what `Replace` does for an empty `old`.
pub spread : Text → Text → Text
spread [] new = new
spread (c ∷ s) new = new ++ (c ∷ spread s new)

-- The leftmost occurrences that do not overlap, for `old` not empty; the first argument counts
-- the bytes of a found occurrence that are still to be skipped.
pub replace_from : ℕ → Text → Text → Text → Text
unfolding has_prefix
replace_from n [] old new = []
replace_from (suc n) (c ∷ s) old new = replace_from n s old new
replace_from zero (c ∷ s) old new =
    let hit = new ++ replace_from (length old - 1) s old new in
    let miss = c ∷ replace_from 0 s old new in if has_prefix (c ∷ s) old then hit else miss

-- `strings.Replace(s, old, new, -1)`
unfoldable pub replace_all : Text → Text → Text → Text
unfolding spread replace_from
replace_all s [] new = spread s new
replace_all s (o ∷ old) new = replace_from 0 s (o ∷ old) new

-- `strings.NewReplacer(from, to).Replace(s)` for single bytes.
unfoldable pub replace_byte : ℕ → ℕ → ℕ → ℕ
replace_byte from to c = if c == from then to else c

unfoldable pub upper_byte : ℕ → ℕ
upper_byte c = if leb b'a' c && leb c b'z' then c - 32 else c

unfoldable pub lower_byte : ℕ → ℕ
lower_byte c = if leb b'A' c && leb c b'Z' then c + 32 else c

-- `strings.ToUpper` and `strings.ToLower` on ASCII text.
unfoldable pub to_upper : Text → Text
unfolding upper_byte
to_upper = map upper_byte

unfoldable pub to_lower : Text → Text
unfolding lower_byte
to_lower = map lower_byte

-- Puts a byte in front of the first part.
unfoldable pub push_first : ℕ → List Text → List Text
push_first c [] = (c ∷ []) ∷ []
push_first c (part ∷ parts) = (c ∷ part) ∷ parts

-- `strings.Split(s, sep)` for a separator of one byte.
unfoldable pub split : Text → ℕ → List Text
unfolding push_first
split [] sep = [] ∷ []
split (c ∷ s) sep = if c == sep then [] ∷ split s sep else push_first c (split s sep)

-- `strings.Join(parts, sep)`
unfoldable pub join : List Text → Text → Text
join [] sep = []
join (part ∷ []) sep = part
join (part ∷ next ∷ parts) sep = part ++ (sep ++ join (next ∷ parts) sep)
