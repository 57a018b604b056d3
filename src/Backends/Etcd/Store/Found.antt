-- ===== src/Backends/Etcd/Store/Found.antt =====
-- What `GetValues` of etcd finds for a key, from what the server has under the keys asked for.
use confd.Prelude.{
  ℕ, ◌≡◌, refl, sym, ap, ◌∙◌, Bool, true, ◌&&◌, some, List, [], ◌∷◌, ◌++◌, exists, arith,
  Bool-cases, inl, inr, ◌⊎◌, append_assoc, if◌then◌else◌,
}
use confd.Std.Text.{Text, same, same_iff, has_prefix, has_suffix}
use confd.Std.Text.Prefix.{has_prefix-append}
use confd.Std.Path.{slash}
use confd.Std.Dict.{Dict, lookup, insert, lookup-insert}
use confd.Backends.Etcd.{Pairs, fixed_key, under_key, take_pairs}
use confd.Backends.Etcd.Snapshot.{Server, read_at}
use confd.Backends.Etcd.Fresh.{is_among}

-- A pair stands among those of an answer.
abbrev pub has_pair : Text → Text → Pairs → Bool
has_pair k v pairs = exists (λ pair. same pair.0 k && same pair.1 v) pairs

-- A name is a key, or lies under it as under a directory, whose name may end with a slash.
abbrev pub IsAtOrUnder : Text → Text → Type 0
IsAtOrUnder key k =
    (k ≡ key)
    ⊎ (((rest : Text) × (k ≡ key ++ (slash ∷ rest)))
        ⊎ ((rest : Text) × (has_suffix key (slash ∷ []) ≡ true) × (k ≡ key ++ rest)))

has_prefix-longer :
    (key rest : Text) → has_prefix (key ++ (slash ∷ rest)) (key ++ (slash ∷ [])) ≡ true
has_prefix-longer key rest =
    ap (λ s. has_prefix s (key ++ (slash ∷ []))) (sym (append_assoc key (slash ∷ []) rest))
    ∙ has_prefix-append (key ++ (slash ∷ [])) rest

IsAtOrUnder-under_key : (key k : Text) → IsAtOrUnder key k → under_key key k ≡ true
unfolding under_key fixed_key
IsAtOrUnder-under_key key k (inl e) = let s = (same_iff k key).1 e in rw s refl
IsAtOrUnder-under_key key k (inr (inl (rest, e))) =
    let long : has_prefix k (key ++ (slash ∷ [])) ≡ true =
      ap (λ s. has_prefix s (key ++ (slash ∷ []))) e ∙ has_prefix-longer key rest in
    let own : has_prefix k key ≡ true =
      ap (λ s. has_prefix s key) e ∙ has_prefix-append key (slash ∷ rest) in
    ground (arith, long, own)
IsAtOrUnder-under_key key k (inr (inr (rest, d, e))) =
    let own : has_prefix k key ≡ true = ap (λ s. has_prefix s key) e ∙ has_prefix-append key rest in
    ground (arith, d, own)

module _ (k v : Text) where
  -- The pairs of an answer have no other value for the name.
  abbrev pub Agrees : Pairs → Type 0
  Agrees pairs = (other : Text) → has_pair k other pairs ≡ true → other ≡ v

  Agrees-rest : (pair : Text × Text) (pairs : Pairs) → Agrees (pair ∷ pairs) → Agrees pairs
  Agrees-rest pair pairs h other e = h other (ground (arith, e))

  Agrees-first : (j w : Text) (pairs : Pairs) → Agrees ((j, w) ∷ pairs) → same j k ≡ true → w ≡ v
  Agrees-first j w pairs h e = h w (let s = (same_iff w w).1 refl in ground (arith, e, s))

  abbrev taken : Text → Text → Text → Dict Text → Dict Text
  taken key j w vars = if under_key key j then insert j w vars else vars

  taken-keeps :
      (key j w : Text) (pairs : Pairs) (vars : Dict Text)
      → Agrees ((j, w) ∷ pairs)
      → lookup k vars ≡ some v
      → lookup k (taken key j w vars) ≡ some v
  taken-keeps key j w pairs vars a h =
      let value = Agrees-first j w pairs a in
      let inserted = lookup-insert j k w vars in
      elim (Bool-cases (under_key key j)) [
        | inr u ↦ rw u h
        | inl u ↦ elim (Bool-cases (same j k)) [
          | inl e ↦ rw (u, inserted, e) (ap some (value e))
          | inr e ↦ rw (u, inserted, e) h
        ]
      ]

  take_pairs-keeps :
      (key : Text) (pairs : Pairs) (vars : Dict Text)
      → Agrees pairs
      → lookup k vars ≡ some v
      → lookup k (take_pairs key pairs vars) ≡ some v
  unfolding take_pairs
  take_pairs-keeps key [] vars a h = h
  take_pairs-keeps key ((j, w) ∷ pairs) vars a h =
      take_pairs-keeps key pairs _ (Agrees-rest (j, w) pairs a) (taken-keeps key j w pairs vars a h)

  take_pairs-finds :
      (key : Text) (pairs : Pairs) (vars : Dict Text)
      → Agrees pairs
      → under_key key k ≡ true
      → has_pair k v pairs ≡ true
      → lookup k (take_pairs key pairs vars) ≡ some v
  unfolding take_pairs
  take_pairs-finds key [] vars a u h = absurd (cc)
  take_pairs-finds key ((j, w) ∷ pairs) vars a u h = elim (Bool-cases (same j k)) [
    | inr e ↦ take_pairs-finds key pairs _ (Agrees-rest (j, w) pairs a) u (ground (arith, e, h))
    | inl e ↦
        let under : under_key key j ≡ true = ap (under_key key) ((same_iff j k).0 e) ∙ u in
        let here : lookup k (taken key j w vars) ≡ some v =
          rw (under, lookup-insert j k w vars, e) (ap some (Agrees-first j w pairs a e)) in
        take_pairs-keeps key pairs _ (Agrees-rest (j, w) pairs a) here
  ]

  module _ (server : Server) (now : ℕ) where
    -- No key that was asked for shows another value.
    abbrev pub AllAgree : List Text → Type 0
    AllAgree keys = (key : Text) → is_among key keys ≡ true → Agrees (server.at now key)

    AllAgree-rest : (key : Text) (keys : List Text) → AllAgree (key ∷ keys) → AllAgree keys
    AllAgree-rest key keys h j e = h j (ground (arith, e))

    AllAgree-first :
        (key : Text) (keys : List Text) → AllAgree (key ∷ keys) → Agrees (server.at now key)
    AllAgree-first key keys h = h key (let s = (same_iff key key).1 refl in ground (arith, s))

    read_at-keeps :
        (keys : List Text) (vars : Dict Text)
        → AllAgree keys
        → lookup k vars ≡ some v
        → lookup k (read_at server now keys vars) ≡ some v
    read_at-keeps [] vars a h = h
    read_at-keeps (key ∷ keys) vars a h =
        read_at-keeps keys _ (AllAgree-rest key keys a)
          (take_pairs-keeps key _ vars (AllAgree-first key keys a) h)

    -- A name is found that the server has at or under one of the keys.
    pub read_at-finds :
        (keys : List Text) (vars : Dict Text) (key : Text)
        → AllAgree keys
        → is_among key keys ≡ true
        → IsAtOrUnder key k
        → has_pair k v (server.at now key) ≡ true
        → lookup k (read_at server now keys vars) ≡ some v
    read_at-finds [] vars key a m u h = absurd (cc)
    read_at-finds (j ∷ keys) vars key a m u h = elim (Bool-cases (same j key)) [
      | inr e ↦ read_at-finds keys _ key (AllAgree-rest j keys a) (ground (arith, e, m)) u h
      | inl e ↦
          let is_j = (same_iff j key).0 e in
          read_at-keeps keys _ (AllAgree-rest j keys a) (
            take_pairs-finds j _ vars (AllAgree-first j keys a)
              (ap (λ x. under_key x k) is_j ∙ IsAtOrUnder-under_key key k u)
              (ap (λ x. has_pair k v (server.at now x)) is_j ∙ h))
    ]
