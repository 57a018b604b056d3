-- ===== src/Backends/Redis/Names.antt =====
-- `transform` and `clean` for a separator of one byte.
use confd.Prelude.{ℕ, ◌≡◌, refl, ap, ap₂, ◌∙◌, ◌≢◌, ◌⊎◌, inl, inr, false, [], ◌∷◌, map, arith, All}
use confd.Std.Text.{Text, same_ne, has_prefix, trim_prefix, replace_byte}
use confd.Std.Text.{text_dec}
use confd.Std.Text.Replace.{replace_all-byte}
use confd.Std.Path.{slash}
use confd.Backends.Redis.{root, transform, clean}

-- A byte that is no separator comes back.
byte_back : (c x : ℕ) → x ≢ c → replace_byte c slash (replace_byte slash c x) ≡ x
unfolding replace_byte
byte_back c x n = ground arith

bytes_back :
    (c : ℕ) (s : Text)
    → All (λ x. x ≢ c) s
    → map (replace_byte c slash) (map (replace_byte slash c) s) ≡ s
bytes_back c [] a = refl
bytes_back c (x ∷ s) (n, a) = ap₂ ◌∷◌ (byte_back c x n) (bytes_back c s a)

bytes_kept : (s : Text) → map (replace_byte slash slash) s ≡ s
unfolding replace_byte
bytes_kept [] = refl
bytes_kept (x ∷ s) = ground (arith, bytes_kept s)

no_slash : (c : ℕ) (s : Text) → c ≢ slash → has_prefix (map (replace_byte slash c) s) root ≡ false
unfolding has_prefix replace_byte
no_slash c [] n = refl
no_slash c (x ∷ s) n = ground arith

transform-slash : (key : Text) → transform root key ≡ key
unfolding transform text_dec
transform-slash key = refl

transform-byte :
    (c : ℕ) (s : Text) → c ≢ slash → transform (c ∷ []) (slash ∷ s) ≡ map (replace_byte slash c) s
unfolding transform trim_prefix has_prefix
transform-byte c s n =
    rw (same_ne (c ∷ []) root (λ e. n (ap (λ (t : Text). elim t [ [] ↦ c | x ∷ xs ↦ x ]) e)))
      (replace_all-byte slash c s)

clean-slash : (s : Text) → clean root (slash ∷ s) ≡ slash ∷ s
unfolding clean has_prefix
clean-slash s = replace_all-byte slash slash (slash ∷ s) ∙ bytes_kept (slash ∷ s)

slash_kept : (c : ℕ) → replace_byte c slash slash ≡ slash
unfolding replace_byte
slash_kept c = ground arith

clean-byte :
    (c : ℕ) (s : Text)
    → c ≢ slash
    → All (λ x. x ≢ c) s
    → clean (c ∷ []) (map (replace_byte slash c) s) ≡ slash ∷ s
unfolding clean
clean-byte c s n a = rw (no_slash c s n) (
    replace_all-byte c slash (slash ∷ map (replace_byte slash c) s)
    ∙ ap₂ ◌∷◌ (slash_kept c) (bytes_back c s a))

-- A rooted key comes back from the name that it has in the server, where the separator is a slash,
-- or another byte that does not occur in the key.
pub clean-transform_byte :
    (c : ℕ) (s : Text)
    → (c ≡ slash) ⊎ ((c ≢ slash) × All (λ x. x ≢ c) s)
    → clean (c ∷ []) (transform (c ∷ []) (slash ∷ s)) ≡ slash ∷ s
clean-transform_byte c s (inl e) =
    ap (λ d. clean (d ∷ []) (transform (d ∷ []) (slash ∷ s))) e
    ∙ ap (clean root) (transform-slash (slash ∷ s))
    ∙ clean-slash s
clean-transform_byte c s (inr (n, a)) =
    ap (clean (c ∷ [])) (transform-byte c s n) ∙ clean-byte c s n a
