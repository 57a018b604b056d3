-- ===== src/Std/Path/Parent.antt =====
-- `Dir` of a clean rooted path.
use confd.Prelude.{ℕ, ◌≡◌, refl, ap, ◌∙◌, List, [], ◌∷◌, ◌++◌, append-nil, ◌==◌, if◌then◌else◌}
use confd.Std.Text.{Text, split}
use confd.Std.Path.{
  slash, split_last, clean, is_rooted, resolve, resolve_step, is_dot, render, path_dir,
}
use confd.Std.Path.Canonical.{
  NoSlash, Names, abs_path, root_path, abs_path-append, nil-Denotes, clean-root_path-slash,
}

-- What one more byte in front adds.
abbrev ahead : ℕ → Text × Text → Text × Text
ahead c (dir, file) = elim dir [
  | [] ↦ (if c == slash then (c ∷ [], file) else ([], c ∷ file))
  | d ∷ ds ↦ (c ∷ d ∷ ds, file)
]

split_last-NoSlash : (x : Text) → NoSlash x → split_last x ≡ ([], x)
unfolding split_last
split_last-NoSlash [] h = refl
split_last-NoSlash (c ∷ x) (n, h) = ap (ahead c) (split_last-NoSlash x h) ∙ rw n refl

ahead-slash :
    (c : ℕ) (dir x : Text) → ahead c (dir ++ (slash ∷ []), x) ≡ (c ∷ (dir ++ (slash ∷ [])), x)
ahead-slash c [] x = refl
ahead-slash c (d ∷ dir) x = refl

split_last-name :
    (dir x : Text) → NoSlash x → split_last (dir ++ (slash ∷ x)) ≡ (dir ++ (slash ∷ []), x)
unfolding split_last
split_last-name [] x h = ap (ahead slash) (split_last-NoSlash x h)
split_last-name (c ∷ dir) x h = ap (ahead c) (split_last-name dir x h) ∙ ahead-slash c dir x

clean-root_path_ended :
    (ns : List Text) → Names ns → clean (abs_path ns ++ (slash ∷ [])) ≡ root_path ns
unfolding clean is_rooted split resolve resolve_step is_dot render
clean-root_path_ended [] h = refl
clean-root_path_ended (n ∷ ns) h =
    clean-root_path-slash (n ∷ ns) [] [] h nil-Denotes ∙ ap root_path (append-nil (n ∷ ns))

root_path-last :
    (ns : List Text) (x : Text) → root_path (ns ++ (x ∷ [])) ≡ abs_path ns ++ (slash ∷ x)
root_path-last [] x = ap (λ t. slash ∷ t) (append-nil x)
root_path-last (n ∷ ns) x =
    abs_path-append (n ∷ ns) (x ∷ []) ∙ ap (λ t. abs_path (n ∷ ns) ++ (slash ∷ t)) (append-nil x)

-- The directory of a clean rooted path is the path without its last name.
pub path_dir-root_path :
    (ns : List Text) (x : Text)
    → Names ns
    → NoSlash x
    → path_dir (root_path (ns ++ (x ∷ []))) ≡ root_path ns
unfolding path_dir
path_dir-root_path ns x h n =
    ap (λ p. clean (split_last p).0) (root_path-last ns x)
    ∙ ap (λ (r : Text × Text). clean r.0) (split_last-name (abs_path ns) x n)
    ∙ clean-root_path_ended ns h
