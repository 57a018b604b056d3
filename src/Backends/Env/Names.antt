-- ===== src/Backends/Env/Names.antt =====
-- The names of environment variables and the keys that they stand for.
use confd.Prelude.{ℕ, ◌≡◌, refl, ap₂, ◌≢◌, false, ◌&&◌, [], ◌∷◌, map, arith, leb, All}
use confd.Std.Text.{Text, replace_byte, upper_byte, lower_byte, to_upper, to_lower}
use confd.Std.Text.Prefix.{trim_prefix-append}
use confd.Std.Path.{slash}
use confd.Backends.Env.{underscore, transform, clean}

-- Bytes that a key may hold and get back: no capital letter and no underscore.
abbrev pub IsPlain : ℕ → Type 0
IsPlain c = ((leb b'A' c && leb c b'Z') ≡ false) × (c ≢ underscore)

byte_back :
    (c : ℕ)
    → IsPlain c
    → replace_byte underscore slash (lower_byte (upper_byte (replace_byte slash underscore c))) ≡ c
unfolding replace_byte lower_byte upper_byte
byte_back c h = ground arith

bytes_back :
    (s : Text)
    → All IsPlain s
    → map
        (replace_byte underscore slash)
        (to_lower (to_upper (map (replace_byte slash underscore) s)))
      ≡ s
unfolding to_lower to_upper
bytes_back [] h = refl
bytes_back (c ∷ s) h = ap₂ ◌∷◌ (byte_back c h.0) (bytes_back s h.1)

slash_back : replace_byte underscore slash (lower_byte slash) ≡ slash
unfolding replace_byte lower_byte
slash_back = refl

-- A rooted key with no capital letter and no underscore comes back from the name of the variable
-- that it is looked up under. Letters are ASCII.
pub clean-transform : (s : Text) → All IsPlain s → clean (transform (slash ∷ s)) ≡ slash ∷ s
unfolding clean transform to_lower
clean-transform s h = rw (trim_prefix-append (slash ∷ []) s) (ap₂ ◌∷◌ slash_back (bytes_back s h))
