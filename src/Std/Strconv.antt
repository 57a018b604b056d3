-- ===== src/Std/Strconv.antt =====
-- Package `strconv`: `Atoi`, `ParseUint` with base 0, `Itoa` and `FormatBool`. The messages of its
-- errors leave out the input that they quote.
use confd.Prelude.{
  ℕ, zero, suc, ◌+◌, ◌-◌, ◌*◌, ◌/◌, ◌%◌, ◌^◌, Bool, true, false, not, ◌&&◌, ◌||◌, Option, none,
  some, [], ◌∷◌, ◌==◌, leb, if◌then◌else◌,
}
use confd.Std.Text.{Text, codes, same, lower_byte}
use confd.Std.Result.{Result, ok, err, Error, ◌>>=◌}
use confd.Std.Int.{ℤ, pos, negsuc}

pub is_digit : ℕ → Bool
is_digit c = leb b'0' c && leb c b'9'

abbrev pub syntax_error : Error
syntax_error = codes "invalid syntax"

abbrev pub range_error : Error
range_error = codes "value out of range"

-- The value of a digit or letter, `none` for any other byte.
pub digit_value : ℕ → Option ℕ
unfolding is_digit lower_byte
digit_value c =
    if is_digit c
    then some (c - b'0')
    else if leb b'a' (lower_byte c) && leb (lower_byte c) b'z'
    then some (lower_byte c - b'a' + 10)
    else none

-- The loop of `ParseUint`: a base, the bound, whether `_` is passed over, and the value so far.
pub parse_digits : ℕ → ℕ → Bool → ℕ → Text → Result ℕ
unfolding digit_value
parse_digits base limit base0 n [] = ok n
parse_digits base limit base0 n (c ∷ s) =
    let skip = parse_digits base limit base0 n s in
    if base0 && c == b'_' then skip else elim (digit_value c) [
      | none ↦ err syntax_error
      | some d ↦
          let rest = parse_digits base limit base0 (n * base + d) s in
          if leb base d
          then err syntax_error
          else if leb limit (n * base + d)
          then err range_error
          else rest
    ]

-- The base that a prefix of the text gives, and what follows the prefix.
pub base_prefix : Text → ℕ × Text
unfolding lower_byte
base_prefix (z ∷ x ∷ d ∷ s) =
    if z == b'0'
    then (if lower_byte x == b'b'
        then (2, d ∷ s)
        else if lower_byte x == b'o'
        then (8, d ∷ s)
        else if lower_byte x == b'x'
        then (16, d ∷ s)
        else (8, x ∷ d ∷ s))
    else (10, z ∷ x ∷ d ∷ s)
base_prefix (z ∷ s) = if z == b'0' then (8, s) else (10, z ∷ s)
base_prefix [] = (10, [])

-- What `underscoreOK` saw last.
pub data Seen : Type 0 where
  start digit underscore other : Seen

pub underscores_ok : Bool → Seen → Text → Bool
unfolding is_digit lower_byte
underscores_ok hex underscore [] = false
underscores_ok hex saw [] = true
underscores_ok hex saw (c ∷ s) =
    if is_digit c || (hex && (leb b'a' (lower_byte c) && leb (lower_byte c) b'f'))
    then underscores_ok hex digit s
    else if c == b'_'
    then elim saw [ digit ↦ underscores_ok hex underscore s | _ ↦ false ]
    else elim saw [ underscore ↦ false | _ ↦ underscores_ok hex other s ]

-- `underscoreOK`, which drops a sign and a base prefix first.
pub underscore_ok : Text → Bool
unfolding underscores_ok lower_byte
underscore_ok (z ∷ x ∷ s) =
    if z == b'0' && (lower_byte x == b'b' || lower_byte x == b'o' || lower_byte x == b'x')
    then underscores_ok (lower_byte x == b'x') digit s
    else underscores_ok false start (z ∷ x ∷ s)
underscore_ok s = underscores_ok false start s

pub has_underscore : Text → Bool
has_underscore [] = false
has_underscore (c ∷ s) = c == b'_' || has_underscore s

-- `strconv.ParseUint(s, 0, bits)`
unfoldable pub parse_uint : Text → ℕ → Result ℕ
unfolding parse_digits base_prefix underscore_ok has_underscore
parse_uint [] bits = err syntax_error
parse_uint (c ∷ s) bits =
    let (base, digits) = base_prefix (c ∷ s) in
    do
      n ← parse_digits base (2 ^ bits) true 0 digits
      if has_underscore (c ∷ s) && not (underscore_ok (c ∷ s)) then err syntax_error else ok n

-- An unsigned decimal below `limit`.
pub parse_decimal : Text → ℕ → Result ℕ
unfolding parse_digits
parse_decimal [] limit = err syntax_error
parse_decimal (c ∷ s) limit = parse_digits 10 limit false 0 (c ∷ s)

abbrev pub negate : ℕ → ℤ
negate zero = pos 0
negate (suc n) = negsuc n

-- `strconv.Atoi` on a machine with 64-bit integers.
unfoldable pub atoi : Text → Result ℤ
unfolding parse_decimal
atoi [] = err syntax_error
atoi (c ∷ s) =
    if c == b'-'
    then (do n ← parse_decimal s (2 ^ 63 + 1); ok (negate n))
    else if c == b'+'
    then (do n ← parse_decimal s (2 ^ 63); ok (pos n))
    else (do n ← parse_decimal (c ∷ s) (2 ^ 63); ok (pos n))

-- The value that `Atoi` returns beside an error: 0 for a text that is no number, and the integer
-- nearest to one that is out of range.
unfoldable pub atoi_value : Text → ℤ
atoi_value s = elim (atoi s) [
  | ok n ↦ n
  | err e ↦ if not (same e range_error) then pos 0 else elim s [
    | [] ↦ pos 0
    | c ∷ t ↦ (if c == b'-' then negsuc (2 ^ 63 - 1) else pos (2 ^ 63 - 1))
  ]
]

-- The decimal digits of `n`, given at least as much fuel as it has digits, in front of `out`.
pub digits_onto : ℕ → ℕ → Text → Text
digits_onto zero n out = out
digits_onto (suc fuel) n out =
    let more = digits_onto fuel (n / 10) ((n % 10 + b'0') ∷ out) in
    if leb 10 n then more else (n + b'0') ∷ out

-- `strconv.Itoa` and `FormatUint(n, 10)`
pub itoa : ℕ → Text
unfolding digits_onto
itoa n = digits_onto (suc n) n []

unfoldable pub itoa_ℤ : ℤ → Text
unfolding itoa
itoa_ℤ (pos n) = itoa n
itoa_ℤ (negsuc n) = b'-' ∷ itoa (suc n)

unfoldable pub format_bool : Bool → Text
format_bool true = codes "true"
format_bool false = codes "false"
