-- ===== src/Backends/Redis/Connect/Address.antt =====
-- What an address of a machine says: where to dial, and which database.
use confd.Prelude.{
  suc, ◌+◌, ◌≡◌, refl, sym, ap, ◌∙◌, ◌≢◌, ◌==◌, none, some, [], ◌∷◌, ◌++◌, All, take, drop, length,
  arith, Bool-cases, inl, inr, ◌⊎◌,
}
use mathlib.Core.Path.{subst}
use confd.Std.Text.{Text, codes, index, has_prefix}
use confd.Std.Result.{Error, Result, ok, err}
use confd.Std.Int.{ℤ}
use confd.Std.Strconv.{atoi, atoi_value}
use confd.Backends.Redis.Connect.{Target, split_database, target_of}

-- A text without a slash.
abbrev pub HasNoSlash : Text → Type 0
HasNoSlash s = All (λ c. c ≢ b'/') s

-- An address without a slash is dialled as it is, at the database 0. A number behind its first
-- slash is the database, and what stands before is dialled. Anything else behind it leaves the
-- address as it is, with the value that `Atoi` gives beside its error.
pub data IsTarget : Text → Target → Type 0 where
  whole :
      {machine : Text}
      → HasNoSlash machine
      → IsTarget machine (record { address = machine; db = ℤ.pos 0 })
  database :
      (host number : Text) {db : ℤ}
      → HasNoSlash host
      → atoi number ≡ ok db
      → IsTarget (host ++ (b'/' ∷ number)) (record { address = host; db = db })
  no_number :
      (host rest : Text) {e : Error}
      → HasNoSlash host
      → atoi rest ≡ err e
      → IsTarget
          (host ++ (b'/' ∷ rest))
          (record { address = host ++ (b'/' ∷ rest); db = atoi_value rest })

index-whole : (s : Text) → HasNoSlash s → index s (codes "/") ≡ none
unfolding index has_prefix
index-whole [] h = refl
index-whole (c ∷ s) (n, h) = ground (arith, n, index-whole s h)

index-host :
    (host rest : Text)
    → HasNoSlash host
    → index (host ++ (b'/' ∷ rest)) (codes "/") ≡ some (length host)
unfolding index has_prefix
index-host [] rest h = refl
index-host (c ∷ host) rest (n, h) = ground (arith, n, index-host host rest h)

take-host : (host rest : Text) → take (length host) (host ++ rest) ≡ host
take-host [] rest = refl
take-host (c ∷ host) rest = ap (λ s. c ∷ s) (take-host host rest)

drop-host : (host rest : Text) → drop (length host + 1) (host ++ (b'/' ∷ rest)) ≡ rest
drop-host [] rest = refl
drop-host (c ∷ host) rest =
    let e : length (c ∷ host) + 1 ≡ suc (length host + 1) = omega arith in
    ap (λ n. drop n (c ∷ (host ++ (b'/' ∷ rest)))) e ∙ drop-host host rest

-- A text has no slash, or is split at its first one.
slash-cases :
    (s : Text) → HasNoSlash s ⊎ ((host rest : Text) × HasNoSlash host × (s ≡ host ++ (b'/' ∷ rest)))
slash-cases [] = inl tt
slash-cases (c ∷ s) = elim (Bool-cases (c == b'/')) [
  | inl e ↦ inr ([], s, tt, ground (arith, e))
  | inr e ↦ elim (slash-cases s) [
    | inl h ↦ inl ((λ k. ground (arith, e, k)), h)
    | inr (host, rest, h, k) ↦
        inr (c ∷ host, rest, ((λ k. ground (arith, e, k)), h), ap (λ l. c ∷ l) k)
  ]
]

pub IsTarget-target_of : (machine : Text) (t : Target) → IsTarget machine t → target_of machine ≡ t
unfolding target_of split_database
IsTarget-target_of _ _ (whole {machine = machine} h) = rw (index-whole machine h) refl
IsTarget-target_of _ _ (database host number h d) =
    rw
      (
        index-host host number h,
        split_database,
        drop-host host number,
        d,
        take-host host (b'/' ∷ number),
      )
      refl
IsTarget-target_of _ _ (no_number host rest h d) =
    rw
      (
        index-host host rest h,
        split_database,
        ap atoi (drop-host host rest) ∙ d,
        drop-host host rest,
      )
      refl

pub target_of-IsTarget : (machine : Text) → IsTarget machine (target_of machine)
target_of-IsTarget machine = elim (slash-cases machine) [
  | inl h ↦ subst (IsTarget machine) (sym (IsTarget-target_of machine _ (whole h))) (whole h)
  | inr (host, rest, h, k) ↦ split host rest h (atoi rest) refl k
]
  where
    split :
        (host rest : Text)
        → HasNoSlash host
        → (r : Result ℤ) → atoi rest ≡ r
        → machine ≡ host ++ (b'/' ∷ rest)
        → IsTarget machine (target_of machine)
    split host rest h (ok db) d k =
        subst (λ m. IsTarget m (target_of m)) (sym k)
          (subst (IsTarget _) (sym (IsTarget-target_of _ _ (database host rest h d)))
            (database host rest h d))
    split host rest h (err e) d k =
        subst (λ m. IsTarget m (target_of m)) (sym k)
          (subst (IsTarget _) (sym (IsTarget-target_of _ _ (no_number host rest h d)))
            (no_number host rest h d))
