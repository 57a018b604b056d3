-- ===== src/Template/Functions/Sequence.antt =====
-- `Seq`. An int stands by its distance from the least one, so that `<=` is that of numbers and an
-- increment wraps around at 2^64.
use confd.Prelude.{
  ℕ, zero, suc, ◌+◌, ◌-◌, ◌%◌, ◌^◌, ◌<◌, ◌≡◌, refl, ap, ◌∙◌, true, false, Option, none, some, List,
  [], ◌∷◌, arith, leb, if◌then◌else◌, ◌==◌, Bool-cases, inl, inr, ltb, ltb→lt,
}

abbrev pub ints : ℕ
ints = 2 ^ 64

-- The loop, for a number of rounds; `none` where it is not over then.
unfoldable pub seq_from : ℕ → ℕ → ℕ → Option (List ℕ)
seq_from zero i last = none
seq_from (suc rounds) i last = elim (leb i last) [
  | false ↦ some []
  | true ↦ elim (seq_from rounds ((i + 1) % ints) last) [ none ↦ none | some arr ↦ some (i ∷ arr) ]
]

-- `Seq`
unfoldable pub seq : ℕ → ℕ → ℕ → Option (List ℕ)
seq rounds first last = seq_from rounds first last

-- The numbers from one on.
abbrev pub count_up : ℕ → ℕ → List ℕ
count_up i zero = []
count_up i (suc n) = i ∷ count_up (i + 1) n

seq_from-count_up :
    (n rounds i last : ℕ)
    → last + 1 < ints
    → n + i ≡ last + 1
    → n < rounds
    → seq_from rounds i last ≡ some (count_up i n)
unfolding seq_from
seq_from-count_up n zero i last h e g = absurd (omega (arith, g))
seq_from-count_up zero (suc rounds) i last h e g = ground (arith, e)
seq_from-count_up (suc n) (suc rounds) i last h e g =
    let small : (i + 1) % ints ≡ i + 1 = omega (arith, h, e) in
    let rest = seq_from-count_up n rounds (i + 1) last h (omega (arith, e)) (omega (arith, g)) in
    ground (arith, e, small, rest)

seq_from-forever : (rounds i : ℕ) → i < ints → seq_from rounds i (ints - 1) ≡ none
unfolding seq_from
seq_from-forever zero i h = refl
seq_from-forever (suc rounds) i h =
    let rest = seq_from-forever rounds ((i + 1) % ints) (omega arith) in ground (arith, h, rest)

seq_from-empty :
    (rounds first last : ℕ) → last < first → 0 < rounds → seq_from rounds first last ≡ some []
unfolding seq_from
seq_from-empty zero first last h g = absurd (omega (arith, g))
seq_from-empty (suc rounds) first last h g = ground (arith, h)

-- `Seq` counts from the first number up to the last, and is over after one round more than there
-- are numbers. Where the last is the greatest int it never ends, as the increment wraps around.
pub seq_lem :
    (rounds first last : ℕ)
    → first < ints
    → last < ints
    → (last + 1) - first < rounds
    → seq rounds first last
      ≡ (if last + 1 == ints then none else some (count_up first ((last + 1) - first)))
unfolding seq
seq_lem rounds first last h g r = elim (Bool-cases (last + 1 == ints)) [
  | inl e ↦
      let q : last ≡ ints - 1 = ground (arith, e) in
      rw e (ap (seq_from rounds first) q ∙ seq_from-forever rounds first h)
  | inr e ↦ elim (Bool-cases (ltb last first)) [
    | inl l ↦
        let z : (last + 1) - first ≡ 0 = ground (arith, l) in
        rw (e, z) (seq_from-empty rounds first last (ltb→lt last first l) (omega arith))
    | inr l ↦ rw e (
        seq_from-count_up ((last + 1) - first) rounds first last (ground (arith, e, g))
          (ground (arith, l)) r)
  ]
]
