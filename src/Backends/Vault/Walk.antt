-- ===== src/Backends/Vault/Walk.antt =====
-- The walk over the tree of secrets.
use confd.Prelude.{
  ℕ, zero, suc, ◌<◌, ◌≡◌, refl, ◌∙◌, ap, List, [], ◌∷◌, arith, All, Bool-cases, inl, inr,
}
use confd.Std.Text.{Text}
use confd.Backends.Vault.{Logical, member, seen, strip_slash, names_below, walk_names, walk_tree}

-- The names below a key lead further down.
abbrev pub Descends : Logical → (Text → ℕ) → Type 0
Descends logical height =
    (key : Text)
    → All (λ name. height (strip_slash (member key name)) < height key) (names_below logical key)

walk_names-agree :
    (height : Text → ℕ) (n m : ℕ) (walk walk' : Text → List Text → List Text)
    → ((key : Text) (branches : List Text)
        → height (strip_slash key) < n
        → height (strip_slash key) < m
        → walk key branches ≡ walk' key branches)
    → (key : Text) (names branches : List Text) → height key < suc n
    → height key < suc m
    → All (λ name. height (strip_slash (member key name)) < height key) names
    → walk_names walk key names branches ≡ walk_names walk' key names branches
unfolding walk_names
walk_names-agree height n m walk walk' same' key [] branches h g a = refl
walk_names-agree height n m walk walk' same' key (name ∷ names) branches h g (a, as') =
    ap (walk_names walk key names)
      (same' (member key name) branches (omega (arith, a, h)) (omega (arith, a, g)))
    ∙ walk_names-agree height n m walk walk' same' key names _ h g as'

-- Where the tree of secrets has a height, the walk ends: from a depth beyond the height of the
-- key on, the branches found are the same, so that none is cut off.
pub walk_tree-enough :
    (logical : Logical) (height : Text → ℕ) (n m : ℕ) (key : Text) (branches : List Text)
    → Descends logical height
    → height (strip_slash key) < n
    → height (strip_slash key) < m
    → walk_tree logical n key branches ≡ walk_tree logical m key branches
unfolding walk_tree
walk_tree-enough logical height zero m key branches d h g = absurd (omega (arith, h))
walk_tree-enough logical height (suc n) zero key branches d h g = absurd (omega (arith, g))
walk_tree-enough logical height (suc n) (suc m) key branches d h g =
    elim (Bool-cases (seen (strip_slash key) branches)) [
      | inl e ↦ rw e refl
      | inr e ↦ rw e (
          walk_names-agree height n m (walk_tree logical n) (walk_tree logical m)
            (λ key' branches' h' g'. walk_tree-enough logical height n m key' branches' d h' g')
            (strip_slash key) _ _ h g (d (strip_slash key)))
    ]
