-- ===== src/Backends/File/Asked.antt =====
-- Which values `GetValues` returns.
use confd.Prelude.{
  ◌≡◌, refl, ◌∙◌, ◌⊎◌, inl, inr, true, false, none, some, is_some, List, [], ◌∷◌, arith, Bool-cases,
  Option-cases, ap, if◌then◌else◌,
}
use confd.Std.Text.{Text, same, same_iff, same_ne}
use confd.Std.Result.{ok}
use confd.Std.Dict.{Dict, lookup, erase, lookup-erase}
use confd.Platform.{Platform}
use confd.Backends.File.{Decoders, next, asked, delete_others, find_files, read_all, get_values}

-- One step of the loop deletes the key that it is at, and only if nobody asked for it.
visit : Text → List Text → Dict Text → Dict Text
visit j keys vars = if asked j keys then vars else erase j vars

visit-asked :
    (k j : Text) (keys : List Text) (vars : Dict Text)
    → asked k keys ≡ true
    → lookup k (visit j keys vars) ≡ lookup k vars
unfolding visit
visit-asked k j keys vars h = elim (Bool-cases (asked j keys)) [
  | inl e ↦ rw e refl
  | inr e ↦
      rw (e, lookup-erase j k vars, same_ne j k (λ q. cc (ap (λ x. asked x keys) q, e, h))) refl
]

visit-none :
    (k j : Text) (keys : List Text) (vars : Dict Text)
    → lookup k vars ≡ none
    → lookup k (visit j keys vars) ≡ none
unfolding visit
visit-none k j keys vars h = elim (Bool-cases (asked j keys)) [
  | inl e ↦ rw e h
  | inr e ↦ rw (e, lookup-erase j k vars, h) (ground arith)
]

visit_self :
    (k j : Text) (keys : List Text) (vars : Dict Text)
    → asked k keys ≡ false
    → same j k ≡ true
    → lookup k (visit j keys vars) ≡ none
unfolding visit
visit_self k j keys vars h e =
    let q : asked j keys ≡ false = ap (λ x. asked x keys) ((same_iff j k).0 e) ∙ h in
    rw (q, lookup-erase j k vars, e) refl

delete_others-asked :
    (k : Text) (keys : List Text) (entries vars : Dict Text)
    → asked k keys ≡ true
    → lookup k (delete_others entries keys vars) ≡ lookup k vars
unfolding delete_others visit
delete_others-asked k keys [] vars h = refl
delete_others-asked k keys ((j, v) ∷ entries) vars h =
    delete_others-asked k keys entries (visit j keys vars) h ∙ visit-asked k j keys vars h

delete_others-not_asked :
    (k : Text) (keys : List Text) (entries vars : Dict Text)
    → asked k keys ≡ false
    → (is_some (lookup k entries) ≡ true) ⊎ (lookup k vars ≡ none)
    → lookup k (delete_others entries keys vars) ≡ none
unfolding delete_others lookup visit
delete_others-not_asked k keys [] vars h (inl g) = cc
delete_others-not_asked k keys [] vars h (inr g) = g
delete_others-not_asked k keys ((j, v) ∷ entries) vars h (inr g) =
    delete_others-not_asked k keys entries (visit j keys vars) h (inr (visit-none k j keys vars g))
delete_others-not_asked k keys ((j, v) ∷ entries) vars h (inl g) =
    delete_others-not_asked k keys entries (visit j keys vars) h (elim (Bool-cases (same j k)) [
      | inl e ↦ inr (visit_self k j keys vars h e)
      | inr e ↦ inl (ground (arith, g, e))
    ])

-- The loop keeps what was asked for.
delete_others_lem :
    (k : Text) (keys : List Text) (vars : Dict Text)
    → lookup k (delete_others vars keys vars) ≡ (if asked k keys then lookup k vars else none)
delete_others_lem k keys vars = elim (Bool-cases (asked k keys)) [
  | inl e ↦ rw e (delete_others-asked k keys vars vars e)
  | inr e ↦ rw e (
      delete_others-not_asked k keys vars vars e
        (elim (Option-cases (lookup k vars)) [ inl n ↦ inr n | inr (v, f) ↦ inl (rw f refl) ]))
]

module _ (P : Platform) (decoders : Decoders) where
  -- Where the files are found and all can be read, `GetValues` returns, for each key, the value
  -- that the files give it if the key begins with one of those asked for, and nothing else.
  pub get_values-asked :
      (paths : List Text) (filter : Text) (keys files : List Text) (s : P.State) (vars : Dict Text)
      (k : Text)
      → find_files P decoders paths filter s ≡ ok files
      → read_all P decoders files [] s ≡ some (ok vars)
      → (result : Dict Text) × (get_values P decoders paths filter keys s ≡ some (ok result))
        × (lookup k result ≡ (if asked k keys then lookup k vars else none))
  unfolding get_values next
  get_values-asked paths filter keys files s vars k h g =
      (delete_others vars keys vars, simp (h, g) refl, delete_others_lem k keys vars)
