-- ===== src/Template/Functions/Reversal.antt =====
-- `Reverse`, on the strings or on the pairs of a list.
use confd.Prelude.{
  ℕ, zero, suc, ◌+◌, ◌-◌, ◌≤◌, ◌<◌, ◌≡◌, refl, ap, sym, ltb→lt, Bool-cases, inl, inr, ◌∙◌, ◌&&◌,
  Option, none, some, List, [], ◌∷◌, arith, leb, ltb, length, get_elem?, ◌==◌, if◌then◌else◌,
}

module _ {A : Type 0} where
  unfoldable pub set_elem : List A → ℕ → A → List A
  set_elem [] i a = []
  set_elem (x ∷ v) zero a = a ∷ v
  set_elem (x ∷ v) (suc i) a = x ∷ set_elem v i a

  unfoldable pub swap_items : Option A → Option A → List A → ℕ → ℕ → List A
  swap_items (some a) (some b) v i j = set_elem (set_elem v i b) j a
  swap_items _ _ v i j = v

  -- `v[i], v[j] = v[j], v[i]`, for indices in range.
  unfoldable pub swap : List A → ℕ → ℕ → List A
  swap v i j = swap_items (get_elem? v i) (get_elem? v j) v i j

  -- The loop, for a number of rounds.
  unfoldable pub reverse_from : ℕ → ℕ → ℕ → List A → List A
  reverse_from zero left right v = v
  reverse_from (suc rounds) left right v =
      if ltb left right then reverse_from rounds (left + 1) (right - 1) (swap v left right) else v

  -- `Reverse`, with as many rounds as there are items.
  unfoldable pub reverse_values : List A → List A
  reverse_values v = reverse_from (length v) 0 (length v - 1) v

  get-set_elem :
      (v : List A) (i k : ℕ) (a : A)
      → i < length v
      → get_elem? (set_elem v i a) k ≡ (if k == i then some a else get_elem? v k)
  unfolding set_elem
  get-set_elem [] i k a h = absurd (omega (arith, h))
  get-set_elem (x ∷ v) zero zero a h = refl
  get-set_elem (x ∷ v) zero (suc k) a h = ground arith
  get-set_elem (x ∷ v) (suc i) zero a h = ground arith
  get-set_elem (x ∷ v) (suc i) (suc k) a h = get-set_elem v i k a (omega (arith, h)) ∙ ground arith

  length-set_elem : (v : List A) (i : ℕ) (a : A) → length (set_elem v i a) ≡ length v
  unfolding set_elem
  length-set_elem [] i a = refl
  length-set_elem (x ∷ v) zero a = refl
  length-set_elem (x ∷ v) (suc i) a = omega (arith, length-set_elem v i a)

  in_range : (v : List A) (i : ℕ) → i < length v → (a : A) × (get_elem? v i ≡ some a)
  in_range [] i h = absurd (omega (arith, h))
  in_range (x ∷ v) zero h = (x, refl)
  in_range (x ∷ v) (suc i) h = in_range v i (omega (arith, h))

  length-swap_items :
      (o q : Option A) (v : List A) (i j : ℕ) → length (swap_items o q v i j) ≡ length v
  unfolding swap_items
  length-swap_items none q v i j = refl
  length-swap_items (some a) none v i j = refl
  length-swap_items (some a) (some b) v i j =
      length-set_elem (set_elem v i b) j a ∙ length-set_elem v i b

  length-swap : (v : List A) (i j : ℕ) → length (swap v i j) ≡ length v
  unfolding swap
  length-swap v i j = length-swap_items (get_elem? v i) (get_elem? v j) v i j

  get-set_elems :
      (v : List A) (i j k : ℕ) (a b : A)
      → i < length v
      → j < length v
      → get_elem? (set_elem (set_elem v i b) j a) k
        ≡ (if k == j then some a else if k == i then some b else get_elem? v k)
  get-set_elems v i j k a b h g =
      let l = length-set_elem v i b in
      get-set_elem (set_elem v i b) j k a (omega (arith, l, g))
      ∙ ap (λ o. if k == j then some a else o) (get-set_elem v i k b h)

  get-swap :
      (v : List A) (i j k : ℕ)
      → i < length v
      → j < length v
      → get_elem? (swap v i j) k
        ≡ (if k == j then get_elem? v i else if k == i then get_elem? v j else get_elem? v k)
  unfolding swap swap_items
  get-swap v i j k h g =
      let (a, e) = in_range v i h in
      let (b, f) = in_range v j g in rw (e, f) (get-set_elems v i j k a b h g)

  reverse_from-length :
      (rounds left right : ℕ) (v : List A) → length (reverse_from rounds left right v) ≡ length v
  unfolding reverse_from
  reverse_from-length zero left right v = refl
  reverse_from-length (suc rounds) left right v =
      let rest = reverse_from-length rounds (left + 1) (right - 1) (swap v left right) in
      ground (arith, rest, length-swap v left right)

  -- What the loop turns around: the items from `left` to `right`.
  abbrev turned : List A → ℕ → ℕ → ℕ → Option A
  turned v left right k =
      if leb left k && leb k right then get_elem? v ((left + right) - k) else get_elem? v k

  turned-one :
      (v : List A) (left right k : ℕ) → right ≤ left → turned v left right k ≡ get_elem? v k
  turned-one v left right k h =
      let c : left ≤ k → k ≤ right → get_elem? v ((left + right) - k) ≡ get_elem? v k =
        λ p q. ap (get_elem? v) (omega (arith, h, p, q)) in
      ground (arith, h, c)

  turned-swap :
      (v : List A) (left right k : ℕ)
      → left < right
      → right < length v
      → turned (swap v left right) (left + 1) (right - 1) k ≡ turned v left right k
  turned-swap v left right k h g =
      let m : ((left + 1) + (right - 1)) - k ≡ (left + right) - k = omega (arith, h) in
      let inner = get-swap v left right ((left + right) - k) (omega (arith, h, g)) g in
      let outer = get-swap v left right k (omega (arith, h, g)) g in
      let at_right : k ≡ right → get_elem? v ((left + right) - k) ≡ get_elem? v left =
        λ e. ap (get_elem? v) (omega (arith, e)) in
      let at_left : k ≡ left → get_elem? v ((left + right) - k) ≡ get_elem? v right =
        λ e. ap (get_elem? v) (omega (arith, e)) in
      rw m (ground (arith, h, inner, outer, at_right, at_left))

  reverse_from-turned :
      (rounds left right : ℕ) (v : List A) (k : ℕ)
      → right < length v
      → right < left + rounds
      → get_elem? (reverse_from rounds left right v) k ≡ turned v left right k
  unfolding reverse_from
  reverse_from-turned zero left right v k h g = sym (turned-one v left right k (omega (arith, g)))
  reverse_from-turned (suc rounds) left right v k h g = elim (Bool-cases (ltb left right)) [
    | inl e ↦
        let l = ltb→lt left right e in
        let n = length-swap v left right in
        rw e (
          reverse_from-turned rounds (left + 1) (right - 1) (swap v left right) k
            (omega (arith, h, n)) (omega (arith, g, l))
          ∙ turned-swap v left right k l h)
    | inr e ↦ rw e (sym (turned-one v left right k (ground (arith, e))))
  ]

-- `Reverse` keeps the number of items and puts each at the place that is as far from the end as
-- its own was from the start.
pub reverse_values_lem :
    {A : Type 0} (v : List A) (k : ℕ)
    → k < length v
    → (length (reverse_values v) ≡ length v)
      × (get_elem? (reverse_values v) k ≡ get_elem? v ((length v - 1) - k))
unfolding reverse_values
reverse_values_lem v k h =
    let t =
      reverse_from-turned (length v) 0 (length v - 1) v k (omega (arith, h)) (omega (arith, h)) in
    (reverse_from-length (length v) 0 (length v - 1) v, t ∙ ground (arith, h))
