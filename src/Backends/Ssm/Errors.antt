-- ===== src/Backends/Ssm/Errors.antt =====
-- Which error `GetValues` returns.
use confd.Prelude.{
  ◌≡◌, refl, ap, ◌∙◌, ◌≢◌, ◌↔◌, ◌⊎◌, inl, inr, Bool, true, false, List, [], ◌∷◌, if◌then◌else◌,
}
use confd.Std.Text.{Text, same, same_iff, same_ne}
use confd.Std.Dict.{Dict}
use confd.Backends.Ssm.{
  AwsError, Answer, ok, err, not_found, Parameters, Service, add_pages, map_answer, bind_answer,
  get_parameters_with_prefix, get_parameter, single, read_key, merge, get_values_from, get_values,
}

-- The look-up of a key by its path fails; or nothing lies there and its own look-up fails, and
-- not because it is missing.
abbrev pub Fails : Service → Text → AwsError → Type 0
Fails service key e =
    (service.pages key ≡ err e)
    ⊎ ((pages : List Parameters) × (service.pages key ≡ ok pages)
        × (add_pages pages [] ≡ [])
        × (service.parameter key ≡ err e)
        × (e.code ≢ not_found))

-- One of the keys fails, and those before it were read.
pub data FailsAt (service : Service) (e : AwsError) : List Text → Type 0 where
  here : {key : Text} {keys : List Text} → Fails service key e → FailsAt service e (key ∷ keys)
  later :
      {key : Text} {keys : List Text} (resp : Dict Text)
      → read_key service key (get_parameters_with_prefix service key) ≡ ok resp
      → FailsAt service e keys
      → FailsAt service e (key ∷ keys)

module _ (service : Service) (e : AwsError) where
  Fails-read_key :
      (key : Text)
      → Fails service key e
      → read_key service key (get_parameters_with_prefix service key) ≡ err e
  unfolding get_parameters_with_prefix read_key get_parameter single
  Fails-read_key key (inl p) = simp p refl
  Fails-read_key key (inr (pages, p, q, r, n)) =
      simp (p, q, r) (simp (same_ne e.code not_found n) refl)

  single-fails :
      (a : Answer (Text × Text)) (f : Text × Text → Dict Text)
      → single (map_answer f a) ≡ err e
      → (a ≡ err e) × (e.code ≢ not_found)
  unfolding single
  single-fails (ok a) f h = cc
  single-fails (err x) f h = go (same x.code not_found) refl h
    where
      go :
          (b : Bool)
          → same x.code not_found ≡ b
          → if◌then◌else◌ {A = Answer (Dict Text)} b (ok []) (err x) ≡ err e
          → (◌≡◌ {A = Answer (Text × Text)} (err x) (err e)) × (e.code ≢ not_found)
      go true g k = cc
      go false g k =
          let q : x ≡ e = ap (λ (a : Answer (Dict Text)). elim a [ ok d ↦ x | err y ↦ y ]) k in
          (ap err q, λ n. cc ((same_iff x.code not_found).1 (ap (λ y. y.code) q ∙ n), g))

  read_key-Fails :
      (key : Text)
      → read_key service key (get_parameters_with_prefix service key) ≡ err e
      → Fails service key e
  unfolding get_parameters_with_prefix read_key get_parameter
  read_key-Fails key = go (service.pages key) refl
    where
      go :
          (a : Answer (List Parameters))
          → service.pages key ≡ a
          → read_key service key (map_answer (λ pages. add_pages pages []) a) ≡ err e
          → Fails service key e
      go (err x) p h =
          inl (p ∙ ap (λ (a : Answer (Dict Text)). elim a [ ok d ↦ err x | err y ↦ err y ]) h)
      go (ok pages) p h = found (add_pages pages []) refl h
        where
          found :
              (m : Dict Text)
              → add_pages pages [] ≡ m
              → read_key service key (ok m) ≡ err e
              → Fails service key e
          found [] q h =
              let (r, n) = single-fails (service.parameter key) _ h in inr (pages, p, q, r, n)
          found (v ∷ m) q h = cc

  fails-FailsAt :
      (keys : List Text) (vars : Dict Text)
      → get_values_from service keys vars ≡ err e
      → FailsAt service e keys
  unfolding get_values_from
  fails-FailsAt [] vars h = cc
  fails-FailsAt (key ∷ keys) vars h =
      go (λ resp. fails-FailsAt keys (merge resp vars))
        (read_key service key (get_parameters_with_prefix service key)) refl h
    where
      go :
          ((resp : Dict Text)
            → get_values_from service keys (merge resp vars) ≡ err e
            → FailsAt service e keys)
          → (a : Answer (Dict Text))
          → read_key service key (get_parameters_with_prefix service key) ≡ a
          → bind_answer a (λ resp. get_values_from service keys (merge resp vars)) ≡ err e
          → FailsAt service e (key ∷ keys)
      go rest (ok resp) r h = later resp r (rest resp h)
      go rest (err x) r h = here (read_key-Fails key (r ∙ h))

  FailsAt-fails :
      (keys : List Text) (vars : Dict Text)
      → FailsAt service e keys
      → get_values_from service keys vars ≡ err e
  unfolding get_values_from
  FailsAt-fails _ vars (here {key} f) = rw (Fails-read_key key f) refl
  FailsAt-fails _ vars (later {key} {keys} resp r f) = rw r (FailsAt-fails keys (merge resp vars) f)

-- `GetValues` returns an error exactly where a key fails and those before it were read, and then
-- the error of that key: the look-up of its path fails, or nothing lies there and its own look-up
-- fails with another code than `ParameterNotFound`.
pub get_values-FailsAt :
    (service : Service) (keys : List Text) (e : AwsError)
    → (get_values service keys ≡ err e) ↔ FailsAt service e keys
unfolding get_values
get_values-FailsAt service keys e =
    (fails-FailsAt service e keys [], FailsAt-fails service e keys [])
