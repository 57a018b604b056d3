-- ===== src/Std/Path/Canonical.antt =====
-- Clean rooted paths, written as their lists of names: how `Clean` and `Join` act on them.
use mathlib.Core.List.{reverse, reverse-append, reverse-reverse}
use confd.Prelude.{
  ℕ, ◌≡◌, refl, sym, ap, ◌∙◌, true, false, List, [], ◌∷◌, ◌++◌, ◌==◌, All, append-nil, append_assoc,
}
use confd.Std.Text.{Text, split, join}
use confd.Std.Path.{
  slash, is_dot, is_dot_dot, resolve_step, resolve, render, is_rooted, clean, clean_or_empty,
  join_raw, path_join,
}

-- A name in a path: no slash in it, and neither empty nor `.` nor `..`
abbrev pub NoSlash : Text → Type 0
NoSlash = All (λ (c : ℕ). (c == slash) ≡ false)

pub record IsName (name : Text) : Type 0 where
  pub no_slash : NoSlash name
  pub not_dot : is_dot name ≡ false
  pub not_dot_dot : is_dot_dot name ≡ false

abbrev pub Names : List Text → Type 0
Names = All IsName

-- The names with a slash before each.
abbrev pub abs_path : List Text → Text
abs_path [] = []
abs_path (name ∷ names) = slash ∷ (name ++ abs_path names)

-- The clean rooted path of a list of names.
abbrev pub root_path : List Text → Text
root_path [] = slash ∷ []
root_path (name ∷ names) = abs_path (name ∷ names)

pub abs_path-append : (ps ks : List Text) → abs_path (ps ++ ks) ≡ abs_path ps ++ abs_path ks
abs_path-append [] ks = refl
abs_path-append (p ∷ ps) ks =
    ap (λ (t : Text). slash ∷ t)
      (ap (λ (t : Text). p ++ t) (abs_path-append ps ks)
        ∙ sym (append_assoc p (abs_path ps) (abs_path ks)))

split-append :
    (name rest : Text) (parts : List Text)
    → NoSlash name
    → split rest slash ≡ [] ∷ parts
    → split (name ++ rest) slash ≡ name ∷ parts
unfolding split
split-append [] rest parts h e = e
split-append (c ∷ name) rest parts h e = rw (h.0, split-append name rest parts h.1 e) refl

split-abs_path : (names : List Text) → Names names → split (abs_path names) slash ≡ [] ∷ names
unfolding split
split-abs_path [] h = refl
split-abs_path (name ∷ names) h =
    ap (λ (l : List Text). [] ∷ l)
      (split-append name (abs_path names) names h.0.no_slash (split-abs_path names h.1))

resolve_step-name :
    (stack : List Text) (name : Text) → IsName name → resolve_step true stack name ≡ name ∷ stack
unfolding resolve_step
resolve_step-name stack name h = rw (h.not_dot, h.not_dot_dot) refl

-- Names are pushed one after the other, and what follows them goes on from there.
resolve-Names :
    (stack names parts : List Text)
    → Names names
    → resolve true stack (names ++ parts) ≡ resolve true (reverse names ++ stack) parts
unfolding resolve
resolve-Names stack [] parts h = refl
resolve-Names stack (name ∷ names) parts h =
    ap (λ (s : List Text). resolve true s (names ++ parts)) (resolve_step-name stack name h.0)
    ∙ resolve-Names (name ∷ stack) names parts h.1
    ∙ ap (λ (s : List Text). resolve true s parts)
        (sym (append_assoc (reverse names) (name ∷ []) stack)
          ∙ ap (λ (s : List Text). s ++ stack) (sym (reverse-append (name ∷ []) names)))

split-abs_path-append :
    (names : List Text) (rest : Text) (parts : List Text)
    → Names names
    → split rest slash ≡ [] ∷ parts
    → split (abs_path names ++ rest) slash ≡ [] ∷ (names ++ parts)
unfolding split
split-abs_path-append [] rest parts h e = e
split-abs_path-append (name ∷ names) rest parts h e =
    ap (λ (l : List Text). [] ∷ l)
      (ap (λ (t : Text). split t slash) (append_assoc name (abs_path names) rest)
        ∙ split-append name (abs_path names ++ rest) (names ++ parts) h.0.no_slash
            (split-abs_path-append names rest parts h.1 e))

join-abs_path :
    (name : Text) (names : List Text)
    → slash ∷ join (name ∷ names) (slash ∷ []) ≡ abs_path (name ∷ names)
unfolding join
join-abs_path name [] = ap (λ (t : Text). slash ∷ t) (sym (append-nil name))
join-abs_path name (next ∷ names) =
    ap (λ (t : Text). slash ∷ (name ++ t)) (join-abs_path next names)

pub render-root_path : (names : List Text) → render true names ≡ root_path names
unfolding render join
render-root_path [] = refl
render-root_path (name ∷ names) = join-abs_path name names

-- The text stands for the names, wherever it follows a slash.
abbrev pub Denotes : Text → List Text → Type 0
Denotes t names = (stack : List Text) → resolve true stack (split t slash) ≡ reverse stack ++ names

resolve-all :
    (stack names : List Text) → Names names → resolve true stack names ≡ reverse stack ++ names
unfolding resolve
resolve-all stack names h =
    ap (resolve true stack) (sym (append-nil names))
    ∙ resolve-Names stack names [] h
    ∙ rw (reverse-append (reverse names) stack, reverse-reverse names) refl

pub nil-Denotes : Denotes [] []
unfolding split resolve resolve_step is_dot
nil-Denotes stack = sym (append-nil (reverse stack))

pub abs_path-Denotes : (names : List Text) → Names names → Denotes (abs_path names) names
unfolding resolve resolve_step is_dot
abs_path-Denotes names h stack = rw (split-abs_path names h) (resolve-all stack names h)

pub root_path-Denotes : (names : List Text) → Names names → Denotes (root_path names) names
unfolding split resolve resolve_step is_dot
root_path-Denotes [] h stack = sym (append-nil (reverse stack))
root_path-Denotes (name ∷ names) h stack = abs_path-Denotes (name ∷ names) h stack

-- The same path with no slash in front.
pub relative-Denotes :
    (name : Text) (names : List Text)
    → Names (name ∷ names)
    → Denotes (name ++ abs_path names) (name ∷ names)
relative-Denotes name names h stack =
    rw (split-append name (abs_path names) names h.0.no_slash (split-abs_path names h.1))
      (resolve-all stack (name ∷ names) h)

pub clean-root_path-slash :
    (ps : List Text) (t : Text) (names : List Text)
    → Names ps
    → Denotes t names
    → clean (root_path ps ++ (slash ∷ t)) ≡ root_path (ps ++ names)
unfolding clean is_rooted split resolve resolve_step is_dot
clean-root_path-slash [] t names h d = ap (render true) (d []) ∙ render-root_path names
clean-root_path-slash (p ∷ ps) t names h d =
    ap (render true) (
      ap (resolve true []) (split-abs_path-append (p ∷ ps) (slash ∷ t) (split t slash) h refl)
      ∙ resolve-Names [] (p ∷ ps) (split t slash) h
      ∙ d (reverse (p ∷ ps) ++ [])
      ∙ ap (λ (l : List Text). l ++ names)
          (ap reverse (append-nil (reverse (p ∷ ps))) ∙ reverse-reverse (p ∷ ps)))
    ∙ render-root_path (p ∷ ps ++ names)

-- `path.Join(prefix, key)` for a clean rooted prefix.
pub path_join-root_path :
    (ps : List Text) (t : Text) (names : List Text)
    → Names ps
    → Denotes t names
    → path_join (root_path ps ∷ t ∷ []) ≡ root_path (ps ++ names)
unfolding path_join join_raw clean_or_empty
path_join-root_path [] t names h d = clean-root_path-slash [] t names h d
path_join-root_path (p ∷ ps) t names h d = clean-root_path-slash (p ∷ ps) t names h d

-- Different names give different paths.
pub root_path_inj :
    (xs ys : List Text) → Names xs → Names ys → root_path xs ≡ root_path ys → xs ≡ ys
root_path_inj xs ys hx hy e =
    sym (root_path-Denotes xs hx [])
    ∙ ap (λ (t : Text). resolve true [] (split t slash)) e
    ∙ root_path-Denotes ys hy []
