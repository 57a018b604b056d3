-- ===== src/Backends/Env/Found.antt =====
-- Which variables `GetValues` returns.
use confd.Prelude.{
  ◌≡◌, refl, sym, ap, ◌∙◌, ◌≢◌, ◌⊎◌, inl, inr, Bool, true, false, none, some, List, [], ◌∷◌,
  if◌then◌else◌,
}
use mathlib.Core.Path.{subst}
use mathlib.Core.Logic.{ite}
use mathlib.Core.Option.{some-injective, none-ne-some}
use confd.Std.Text.{Text, text_dec, same, same_iff, has_prefix}
use confd.Std.Dict.{Dict, lookup, insert, lookup-insert, lookup-nil}
use confd.Backends.Env.{transform, clean, env_map, collect, collect_all, get_values}

-- A variable of the list with that name and value.
pub data Has (name value : Text) : Dict Text → Type 0 where
  here : {found : Dict Text} → Has name value ((name, value) ∷ found)
  later : {n v : Text} {found : Dict Text} → Has name value found → Has name value ((n, v) ∷ found)

-- A variable that stands for the key `k` and has the value `v`, and whose name begins with one of
-- the names asked for.
pub record Source (prefix : Text) (found : Dict Text) (k v : Text) : Type 0 where
  pub name : Text
  pub present : Has name v found
  pub stands_for : clean name ≡ k
  pub matches : has_prefix name prefix ≡ true

weaken :
    {prefix n w k v : Text} {found : Dict Text}
    → Source prefix found k v
    → Source prefix ((n, w) ∷ found) k v
weaken s = record {
  name = s.name;
  present = later s.present;
  stands_for = s.stands_for;
  matches = s.matches;
}

insert_cases :
    (j k w v : Text) (vars : Dict Text)
    → lookup k (insert j w vars) ≡ some v
    → (j ≡ k) × (w ≡ v) ⊎ (lookup k vars ≡ some v)
insert_cases j k w v vars h = go (text_dec j k) (sym (lookup-insert j k w vars) ∙ h)
  where
    go :
        (d : Dec (j ≡ k))
        → (if ite d true false then some w else lookup k vars) ≡ some v
        → (j ≡ k) × (w ≡ v) ⊎ (lookup k vars ≡ some v)
    go (yes e) h = inl (e, some-injective _ _ h)
    go (no n) h = inr h

module _ (prefix k v : Text) where
  added :
      (n w : Text) (found vars : Dict Text) (b : Bool)
      → has_prefix n prefix ≡ b
      → lookup k (if b then insert (clean n) w vars else vars) ≡ some v
      → Source prefix ((n, w) ∷ found) k v ⊎ (lookup k vars ≡ some v)
  added n w found vars false e h = inr h
  added n w found vars true e h = go (insert_cases (clean n) k w v vars h)
    where
      go :
          (clean n ≡ k) × (w ≡ v) ⊎ (lookup k vars ≡ some v)
          → Source prefix ((n, w) ∷ found) k v ⊎ (lookup k vars ≡ some v)
      go (inl (c, same_value)) = inl (record {
        name = n;
        present = subst (λ (x : Text). Has n x ((n, w) ∷ found)) same_value here;
        stands_for = c;
        matches = e;
      })
      go (inr l) = inr l

  -- What is found after the loop over the variables was found in it or was there before.
  collect-Source :
      (found vars : Dict Text)
      → lookup k (collect prefix found vars) ≡ some v
      → Source prefix found k v ⊎ (lookup k vars ≡ some v)
  unfolding collect
  collect-Source [] vars h = inr h
  collect-Source ((n, w) ∷ found) vars h = go (collect-Source found _ h)
    where
      go :
          Source prefix found k v
            ⊎ (lookup k (if has_prefix n prefix then insert (clean n) w vars else vars) ≡ some v)
          → Source prefix ((n, w) ∷ found) k v ⊎ (lookup k vars ≡ some v)
      go (inl s) = inl (weaken s)
      go (inr l) = added n w found vars (has_prefix n prefix) refl l

-- One of the keys asked for has such a variable.
abbrev pub SourceOf : List Text → Dict Text → Text → Text → Type 0
SourceOf [] found k v = ⊥
SourceOf (key ∷ keys) found k v = Source (transform key) found k v ⊎ SourceOf keys found k v

collect_all-Source :
    (keys : List Text) (found vars : Dict Text) (k v : Text)
    → lookup k (collect_all keys found vars) ≡ some v
    → SourceOf keys found k v ⊎ (lookup k vars ≡ some v)
unfolding collect_all
collect_all-Source [] found vars k v h = inr h
collect_all-Source (key ∷ keys) found vars k v h = go (collect_all-Source keys found _ k v h)
  where
    before :
        Source (transform key) found k v ⊎ (lookup k vars ≡ some v)
        → SourceOf (key ∷ keys) found k v ⊎ (lookup k vars ≡ some v)
    before (inl s) = inl (inl s)
    before (inr l) = inr l

    go :
        SourceOf keys found k v ⊎ (lookup k (collect (transform key) found vars) ≡ some v)
        → SourceOf (key ∷ keys) found k v ⊎ (lookup k vars ≡ some v)
    go (inl s) = inl (inr s)
    go (inr l) = before (collect-Source (transform key) k v found vars l)

-- Nothing is lost by going on.
insert-kept :
    (j k w : Text) (vars : Dict Text) → lookup k vars ≢ none → lookup k (insert j w vars) ≢ none
insert-kept j k w vars h = rw (lookup-insert j k w vars) (go (same j k))
  where
    go : (b : Bool) → (if b then some w else lookup k vars) ≢ none
    go true e = cc
    go false e = h e

collect-kept :
    (prefix k : Text) (found vars : Dict Text)
    → lookup k vars ≢ none
    → lookup k (collect prefix found vars) ≢ none
unfolding collect
collect-kept prefix k [] vars h = h
collect-kept prefix k ((n, w) ∷ found) vars h =
    collect-kept prefix k found _ (go (has_prefix n prefix))
  where
    go : (b : Bool) → lookup k (if b then insert (clean n) w vars else vars) ≢ none
    go true = insert-kept (clean n) k w vars h
    go false = h

collect_all-kept :
    (k : Text) (keys : List Text) (found vars : Dict Text)
    → lookup k vars ≢ none
    → lookup k (collect_all keys found vars) ≢ none
unfolding collect_all
collect_all-kept k [] found vars h = h
collect_all-kept k (key ∷ keys) found vars h =
    collect_all-kept k keys found _ (collect-kept (transform key) k found vars h)

collect-present :
    (prefix name v : Text) (found vars : Dict Text)
    → Has name v found
    → has_prefix name prefix ≡ true
    → lookup (clean name) (collect prefix found vars) ≢ none
unfolding collect
collect-present prefix name v [] vars h e = elim h [ ]
collect-present prefix name v ((n, w) ∷ found) vars here e = rw e (
    collect-kept prefix (clean name) found _ (
      rw (lookup-insert (clean name) (clean name) v vars)
        (rw ((same_iff (clean name) (clean name)).1 refl) (λ x. cc))))
collect-present prefix name v ((n, w) ∷ found) vars (later h) e =
    collect-present prefix name v found _ h e

-- The name begins with that of one of the keys.
abbrev pub AskedFor : Text → List Text → Type 0
AskedFor name [] = ⊥
AskedFor name (key ∷ keys) = (has_prefix name (transform key) ≡ true) ⊎ AskedFor name keys

collect_all-present :
    (keys : List Text) (name v : Text) (found vars : Dict Text)
    → Has name v found
    → AskedFor name keys
    → lookup (clean name) (collect_all keys found vars) ≢ none
unfolding collect_all
collect_all-present [] name v found vars h a = absurd a
collect_all-present (key ∷ keys) name v found vars h (inl e) =
    collect_all-kept (clean name) keys found _
      (collect-present (transform key) name v found vars h e)
collect_all-present (key ∷ keys) name v found vars h (inr a) =
    collect_all-present keys name v found _ h a

pub get_values-collected :
    (environ keys : List Text) (found : Dict Text)
    → env_map environ [] ≡ some found
    → get_values environ keys ≡ some (collect_all keys found [])
unfolding get_values
get_values-collected environ keys found h = rw (h, get_values) refl

-- What `GetValues` returns under a key is the value of a variable whose name stands for the key
-- and begins with the name of one of the keys asked for.
pub get_values-Source :
    (environ keys : List Text) (found vars : Dict Text) (k v : Text)
    → env_map environ [] ≡ some found
    → get_values environ keys ≡ some vars
    → lookup k vars ≡ some v
    → SourceOf keys found k v
get_values-Source environ keys found vars k v h e l =
    go (collect_all-Source keys found [] k v given)
  where
    given : lookup k (collect_all keys found []) ≡ some v
    given =
        ap (lookup k) (some-injective _ _ (sym (get_values-collected environ keys found h) ∙ e)) ∙ l

    go : SourceOf keys found k v ⊎ (lookup k [] ≡ some v) → SourceOf keys found k v
    go (inl s) = s
    go (inr n) = absurd (none-ne-some v (sym (lookup-nil k) ∙ n))

-- Every variable whose name begins with that of a key asked for is returned, under the key that
-- its name stands for.
pub get_values_complete :
    (environ keys : List Text) (found vars : Dict Text) (name v : Text)
    → env_map environ [] ≡ some found
    → get_values environ keys ≡ some vars
    → Has name v found
    → AskedFor name keys
    → lookup (clean name) vars ≢ none
get_values_complete environ keys found vars name v h e has asked l =
    collect_all-present keys name v found [] has asked (
      ap (lookup (clean name))
        (some-injective _ _ (sym (get_values-collected environ keys found h) ∙ e))
      ∙ l)
