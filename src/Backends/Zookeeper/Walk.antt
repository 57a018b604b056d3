-- ===== src/Backends/Zookeeper/Walk.antt =====
-- How deep the walk goes, and which errors it returns.
use confd.Prelude.{ℕ, zero, suc, ◌<◌, ◌≡◌, refl, ◌∙◌, ap, ◌⊎◌, inl, inr, List, [], ◌∷◌, arith, All}
use confd.Std.Text.{Text}
use confd.Std.Result.{Result, ok, err}
use confd.Std.Dict.{Dict}
use confd.Std.Exec.{continue}
use confd.Backends.Zookeeper.{
  Zk, Filling, child, set_value, visit_child, visit_children, walk_from, node_walk,
}

-- A child at which the walk of its parent meets no error: an inner node, or a leaf with data.
abbrev pub Readable : Zk → Text → Type 0
Readable zk s =
    ((n : ℕ) × (zk.exists s ≡ ok (suc n)))
    ⊎ ((zk.exists s ≡ ok zero) × ((data' : Text) × (zk.get s ≡ ok data')))

visit_child-ok :
    (zk : Zk) (walk : Text → Filling) (s : Text) (vars : Dict Text)
    → Readable zk s
    → (visit_child zk walk s (zk.exists s) vars).0 ≡ ok tt
unfolding visit_child set_value
visit_child-ok zk walk s vars (inl (n, e)) = rw e refl
visit_child-ok zk walk s vars (inr (e, (data', g))) = simp (e, g) refl

visit_children-ok :
    (zk : Zk) (walk : Text → Filling) (prefix : Text) (l : List Text) (vars : Dict Text)
    → All (λ key. Readable zk (child prefix key)) l
    → (visit_children zk walk prefix l vars).0 ≡ ok tt
unfolding visit_children
visit_children-ok zk walk prefix [] vars a = refl
visit_children-ok zk walk prefix (key ∷ l) vars (a, as') =
    rw (visit_child-ok zk walk (child prefix key) vars a) (visit_children-ok zk walk prefix l _ as')

-- An error that is met below the children of a node is lost: `nodeWalk` succeeds where its node
-- can be listed and has children, each a node with children of its own or a leaf that can be
-- read, whatever fails further down.
pub node_walk-deep_errors :
    (zk : Zk) (depth n : ℕ) (prefix : Text) (l : List Text) (vars : Dict Text)
    → zk.children prefix ≡ ok (l, suc n)
    → All (λ key. Readable zk (child prefix key)) l
    → (node_walk zk (suc depth) prefix vars).0 ≡ ok tt
unfolding node_walk walk_from
node_walk-deep_errors zk depth n prefix l vars e a =
    rw e (visit_children-ok zk (node_walk zk depth) prefix l vars a)

-- The names of the children of a node, where it can be listed.
abbrev pub below : Result (List Text × ℕ) → List Text
below (err e) = []
below (ok (l, n)) = l

-- The children of a node lie below it.
abbrev pub Descends : Zk → (Text → ℕ) → Type 0
Descends zk height =
    (key : Text) → All (λ name. height (child key name) < height key) (below (zk.children key))

visit_child-agree :
    (zk : Zk) (walk walk' : Text → Filling) (s : Text) (found : Result ℕ) (vars : Dict Text)
    → ((vars : Dict Text) → walk s vars ≡ walk' s vars)
    → visit_child zk walk s found vars ≡ visit_child zk walk' s found vars
unfolding visit_child
visit_child-agree zk walk walk' s (err e) vars h = refl
visit_child-agree zk walk walk' s (ok zero) vars h = refl
visit_child-agree zk walk walk' s (ok (suc n)) vars h = rw (h vars) refl

and_then-agree :
    (k k' : Filling) (out : Result (Unit {0}) × Dict Text)
    → ((vars : Dict Text) → k vars ≡ k' vars)
    → continue out.0 (λ _. k) out.1 ≡ continue out.0 (λ _. k') out.1
and_then-agree k k' (ok u, vars) h = h vars
and_then-agree k k' (err e, vars) h = refl

visit_children-agree :
    (zk : Zk) (height : Text → ℕ) (n m : ℕ) (walk walk' : Text → Filling)
    → ((key : Text) (vars : Dict Text)
        → height key < n
        → height key < m
        → walk key vars ≡ walk' key vars)
    → (key : Text) (names : List Text) (vars : Dict Text) → height key < suc n
    → height key < suc m
    → All (λ name. height (child key name) < height key) names
    → visit_children zk walk key names vars ≡ visit_children zk walk' key names vars
unfolding visit_children
visit_children-agree zk height n m walk walk' f key [] vars h g a = refl
visit_children-agree zk height n m walk walk' f key (name ∷ names) vars h g (a, as') =
    ap
      (λ (out : Result (Unit {0}) × Dict Text).
        continue out.0 (λ _. visit_children zk walk key names) out.1)
      (visit_child-agree zk walk walk' (child key name) (zk.exists (child key name)) vars
        (λ vars'. f (child key name) vars' (omega (arith, a, h)) (omega (arith, a, g))))
    ∙ and_then-agree (visit_children zk walk key names) (visit_children zk walk' key names)
        (visit_child zk walk' (child key name) (zk.exists (child key name)) vars)
        (λ vars'. visit_children-agree zk height n m walk walk' f key names vars' h g as')

walk_from-agree :
    (zk : Zk) (height : Text → ℕ) (n m : ℕ) (walk walk' : Text → Filling)
    → ((key : Text) (vars : Dict Text)
        → height key < n
        → height key < m
        → walk key vars ≡ walk' key vars)
    → (key : Text) (found : Result (List Text × ℕ)) (vars : Dict Text) → height key < suc n
    → height key < suc m
    → All (λ name. height (child key name) < height key) (below found)
    → walk_from zk walk key found vars ≡ walk_from zk walk' key found vars
unfolding walk_from
walk_from-agree zk height n m walk walk' f key (err e) vars h g a = refl
walk_from-agree zk height n m walk walk' f key (ok (l, zero)) vars h g a = refl
walk_from-agree zk height n m walk walk' f key (ok (l, suc c)) vars h g a =
    visit_children-agree zk height n m walk walk' f key l vars h g a

-- Where the tree of nodes has a height, `nodeWalk` ends: from a depth beyond the height of the
-- node on, the outcome is the same, the error and the values filled in.
pub node_walk-enough :
    (zk : Zk) (height : Text → ℕ) (n m : ℕ) (key : Text) (vars : Dict Text)
    → Descends zk height
    → height key < n
    → height key < m
    → node_walk zk n key vars ≡ node_walk zk m key vars
unfolding node_walk
node_walk-enough zk height zero m key vars d h g = absurd (omega (arith, h))
node_walk-enough zk height (suc n) zero key vars d h g = absurd (omega (arith, g))
node_walk-enough zk height (suc n) (suc m) key vars d h g =
    walk_from-agree zk height n m (node_walk zk n) (node_walk zk m)
      (λ key' vars' h' g'. node_walk-enough zk height n m key' vars' d h' g') key (zk.children key)
      vars h g (d key)
