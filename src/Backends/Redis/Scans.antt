-- ===== src/Backends/Redis/Scans.antt =====
-- What a scan reads, and when it ends.
use confd.Prelude.{
  ℕ, zero, suc, ◌≤◌, ◌≡◌, refl, sym, ap, ◌∙◌, ◌≢◌, List, [], ◌∷◌, ◌++◌, length, arith, Option, none,
  some, if◌then◌else◌,
}
use confd.Std.Text.{Text, codes, same, same_ne}
use confd.Std.Dict.{Dict, lookup, lookup-insert}
use confd.Backends.Redis.{
  Answer, ok, Page, Server, returns, transform, clean, nil, err, add_value, add_keys, scan_loop,
  pattern_below, read_typed, read_key,
}

-- The parts of a scan from a cursor on: the items of each, up to the one that gives the cursor 0.
pub data Parts (ask : ℕ → Answer Page) : ℕ → List (List Text) → Type 0 where
  last :
      {idx : ℕ} {items : List Text}
      → ask idx ≡ ok (record { cursor = 0; items = items })
      → Parts ask idx (items ∷ [])
  more :
      {idx c : ℕ} {items : List Text} {rest : List (List Text)}
      → ask idx ≡ ok (record { cursor = suc c; items = items })
      → Parts ask (suc c) rest
      → Parts ask idx (items ∷ rest)

abbrev pub concat : List (List Text) → List Text
concat [] = []
concat (items ∷ rest) = items ++ concat rest

module _ (server : Server) (separator : Text) where
  add_keys-append :
      (xs ys : List Text) (vars : Dict Text)
      → add_keys server separator (xs ++ ys) vars
        ≡ add_keys server separator ys (add_keys server separator xs vars)
  unfolding add_keys
  add_keys-append [] ys vars = refl
  add_keys-append (x ∷ xs) ys vars = add_keys-append xs ys _

  scan_loop-Parts :
      (ask : ℕ → Answer Page) (parts idx : ℕ) (pages : List (List Text)) (vars : Dict Text)
      → Parts ask idx pages
      → length pages ≤ parts
      → scan_loop parts ask (λ keys vars'. returns (add_keys server separator keys vars')) idx vars
        ≡ returns (add_keys server separator (concat pages) vars)
  unfolding scan_loop add_keys
  scan_loop-Parts ask zero idx _ vars (last e) h = absurd (omega arith)
  scan_loop-Parts ask zero idx _ vars (more e p) h = absurd (omega (arith, h))
  scan_loop-Parts ask (suc parts) idx _ vars (last {items = items} e) h =
      rw (scan_loop, e) (ap returns (sym (add_keys-append items [] vars)))
  scan_loop-Parts ask (suc parts) idx _ vars (more {items = items} {rest = rest} e p) h =
      rw (scan_loop, e)
        (scan_loop-Parts ask parts _ rest (add_keys server separator items vars) p
            (omega (arith, h))
          ∙ ap returns (sym (add_keys-append items (concat rest) vars)))

-- The string that a command returns, if it does.
abbrev pub answered : Answer Text → Option Text
answered (ok value) = some value
answered nil = none
answered (err e) = none

-- The value that the server has for the last of the keys with a clean name, leaving out those that
-- cannot be read as a string.
abbrev pub found : Server → Text → Text → List Text → Option Text
found server separator name [] = none
found server separator name (key ∷ keys) = elim (found server separator name keys) [
  | some value ↦ some value
  | none ↦ if same (clean separator key) name then answered (server.get key) else none
]

abbrev pub or_else : Option Text → Option Text → Option Text
or_else none other = other
or_else (some value) other = some value

lookup-add_value :
    (separator key name : Text) (a : Answer Text) (vars : Dict Text)
    → lookup name (add_value separator key a vars)
      ≡ or_else (if same (clean separator key) name then answered a else none) (lookup name vars)
unfolding add_value
lookup-add_value separator key name (ok v) vars =
    ground (arith, lookup-insert (clean separator key) name v vars)
lookup-add_value separator key name nil vars = ground arith
lookup-add_value separator key name (err e) vars = ground arith

lookup-add_keys :
    (server : Server) (separator name : Text) (keys : List Text) (vars : Dict Text)
    → lookup name (add_keys server separator keys vars)
      ≡ or_else (found server separator name keys) (lookup name vars)
unfolding add_keys
lookup-add_keys server separator name [] vars = refl
lookup-add_keys server separator name (key ∷ keys) vars =
    lookup-add_keys server separator name keys _ ∙ last_wins (found server separator name keys)
  where
    last_wins :
        (rest : Option Text)
        → or_else rest (lookup name (add_value separator key (server.get key) vars))
          ≡ or_else
              (elim rest [
                | some value ↦ some value
                | none ↦ if same (clean separator key) name then answered (server.get key) else none
              ])
              (lookup name vars)
    last_wins (some value) = refl
    last_wins none = lookup-add_value separator key name (server.get key) vars

-- A key is neither a string nor a hash, and the scan for the keys below it comes to its end in some
-- number of parts, which the loop may follow. Then the loop ends without an error, and under each
-- name stands the value that the server has for the last key of all parts with that clean name,
-- or what stood there before where no key that can be read has that name.
pub read_key-Parts :
    (server : Server) (separator key t : Text) (pages : List (List Text)) (parts : ℕ)
    (vars : Dict Text) (name : Text)
    → server.type_of (transform separator key) ≡ ok t
    → t ≢ codes "string"
    → t ≢ codes "hash"
    → Parts (λ idx. server.scan idx (pattern_below separator key (transform separator key))) 0 pages
    → length pages ≤ parts
    → (result : Dict Text) × (read_key server parts separator key vars ≡ returns result)
      × (lookup name result
          ≡ or_else (found server separator name (concat pages)) (lookup name vars))
unfolding read_key read_typed
read_key-Parts server separator key t pages parts vars name e n m p h = (
  add_keys server separator (concat pages) vars,
  rw e (
      rw (same_ne t (codes "string") n, same_ne t (codes "hash") m)
        (scan_loop-Parts server separator _ parts 0 pages vars p h)),
  lookup-add_keys server separator name (concat pages) vars,
)
