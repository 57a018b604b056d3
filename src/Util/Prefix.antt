-- ===== src/Util/Prefix.antt =====
-- The keys that `AppendPrefix` makes.
use confd.Prelude.{◌≡◌, refl, ap₂, List, [], ◌∷◌, ◌++◌, map}
use confd.Std.Text.{Text}
use confd.Std.Path.Canonical.{Names, root_path, Denotes, path_join-root_path}
use confd.Util.{append_prefix}

-- Each key denotes the names beside it.
abbrev pub AllDenote : List Text → List (List Text) → Type 0
AllDenote [] [] = Unit
AllDenote (k ∷ keys) (names ∷ more) = Denotes k names × AllDenote keys more
AllDenote [] (names ∷ more) = ⊥
AllDenote (k ∷ keys) [] = ⊥

-- Under a clean rooted prefix every key, with or without a slash in front of it, becomes the clean
-- path of the prefix and then the key. The keys keep their number and order.
pub append_prefix-root_path :
    (ps : List Text) (keys : List Text) (names : List (List Text))
    → Names ps
    → AllDenote keys names
    → append_prefix (root_path ps) keys ≡ map (λ ks. root_path (ps ++ ks)) names
unfolding append_prefix
append_prefix-root_path ps [] [] hp h = refl
append_prefix-root_path ps [] (names ∷ more) hp h = absurd h
append_prefix-root_path ps (k ∷ keys) [] hp h = absurd h
append_prefix-root_path ps (k ∷ keys) (names ∷ more) hp h =
    ap₂ ◌∷◌ (path_join-root_path ps k names hp h.0) (append_prefix-root_path ps keys more hp h.1)
