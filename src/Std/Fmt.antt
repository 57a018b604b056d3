-- ===== src/Std/Fmt.antt =====
-- `fmt.Sprintf` for formats whose directives are `%%` and verbs of one ASCII letter, which all formats
-- of the program's log calls are; `none` for flags, widths, indices and other verbs.
pub mod Plain
use confd.Prelude.{
  ℕ, Bool, ◌&&◌, ◌||◌, Option, none, some, List, [], ◌∷◌, ◌++◌, map, leb, ◌==◌, if◌then◌else◌,
}
use confd.Std.Text.{Text, codes, join}

-- An argument, as a verb prints it, and with its type as it is reported where no verb asks for it.
pub record Arg : Type 0 where
  pub printed : ℕ → Text
  pub described : Text

abbrev pub is_letter : ℕ → Bool
is_letter c = (leb b'a' c && leb c b'z') || (leb b'A' c && leb c b'Z')

-- What is written of the arguments that are left.
unfoldable pub extra : List Arg → Text
extra [] = []
extra (a ∷ args) =
    codes "%!(EXTRA "
    ++ (join (a.described ∷ map (λ b. b.described) args) (codes ", ") ++ codes ")")

-- What a verb writes that has no argument.
unfoldable pub missing : ℕ → Text
missing verb = b'%' ∷ b'!' ∷ verb ∷ codes "(MISSING)"

abbrev pub no_verb : Text
no_verb = codes "%!(NOVERB)"

-- A text in front of the rest.
abbrev pub in_front : Text → Option Text → Option Text
in_front out none = none
in_front out (some rest) = some (out ++ rest)

-- What a directive does, given the rest of the text with the arguments that are left.
abbrev pub directive : ℕ → List Arg → (List Arg → Option Text) → Option Text
directive verb args rest =
    if verb == b'%'
    then in_front (b'%' ∷ []) (rest args)
    else if is_letter verb
    then elim args [
      | [] ↦ in_front (missing verb) (rest [])
      | a ∷ more ↦ in_front (a.printed verb) (rest more)
    ]
    else none

-- `fmt.Sprintf(format, args...)`
unfoldable pub sprintf : Text → List Arg → Option Text
unfolding extra
sprintf [] args = some (extra args)
sprintf (c ∷ []) args = if c == b'%' then some (no_verb ++ extra args) else some (c ∷ extra args)
sprintf (c ∷ d ∷ s) args =
    let here = directive d args (λ left. sprintf s left) in
    let next = in_front (c ∷ []) (sprintf (d ∷ s) args) in if c == b'%' then here else next
