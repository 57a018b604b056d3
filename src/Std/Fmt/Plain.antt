-- ===== src/Std/Fmt/Plain.antt =====
-- Formats that print as they are.
use confd.Prelude.{
  ℕ, suc, ◌≤◌, ◌≡◌, refl, ◌≢◌, Bool, true, false, Option, none, some, [], ◌∷◌, ◌++◌, arith, ◌==◌,
  if◌then◌else◌, exists, Bool-cases, inl, inr, ◌⊎◌,
}
use confd.Std.Text.{Text}
use confd.Std.Fmt.{sprintf, extra, missing, in_front, directive, no_verb, is_letter}

abbrev pub has_percent : Text → Bool
has_percent s = exists (λ c. c == b'%') s

pub sprintf-plain : (s : Text) → has_percent s ≡ false → sprintf s [] ≡ some s
unfolding sprintf extra
sprintf-plain [] h = refl
sprintf-plain (c ∷ []) h = ground arith
sprintf-plain (c ∷ d ∷ s) h =
    let rest = sprintf-plain (d ∷ s) (ground arith) in
    let f : (c == b'%') ≡ false = ground arith in rw (f, rest) refl

abbrev percents : Text → ℕ
percents [] = 0
percents (c ∷ s) = if c == b'%' then suc (percents s) else percents s

-- What is behind a text that was put in front.
in_front-some :
    (p : Text) (o : Option Text) (out : Text)
    → in_front p o ≡ some out
    → (rest : Text) × (o ≡ some rest) × (out ≡ p ++ rest)
in_front-some p none out h = absurd (cc)
in_front-some p (some rest) out h = (rest, refl, cc)

percents-missing :
    (d : ℕ) (s : Text) → (d == b'%') ≡ false → percents (missing d ++ s) ≡ suc (percents s)
unfolding missing
percents-missing d s h = ground arith

-- A directive and what follows it, with no argument.
directive_cases :
    (d : ℕ) (s out : Text)
    → directive d [] (λ left. sprintf s left) ≡ some out
    → (rest : Text) × ((sprintf s [] ≡ some rest)
        × ((((d == b'%') ≡ true) × (out ≡ b'%' ∷ rest))
            ⊎ (((d == b'%') ≡ false) × ((is_letter d ≡ true) × (out ≡ missing d ++ rest)))))
directive_cases d s out h = elim (Bool-cases (d == b'%')) [
  | inl e ↦
      let (rest, e', e'') = in_front-some (b'%' ∷ []) (sprintf s []) out (rw e at h) in
      (rest, (e', inl (e, e'')))
  | inr e ↦ elim (Bool-cases (is_letter d)) [
    | inl l ↦
        let (rest, e', e'') = in_front-some (missing d) (sprintf s []) out (rw (e, l) at h) in
        (rest, (e', inr (e, (l, e''))))
    | inr l ↦ let h' : none ≡ some out = rw (e, l) at h in absurd (cc)
  ]
]

sprintf-percents : (s out : Text) → sprintf s [] ≡ some out → percents out ≤ percents s
unfolding sprintf extra missing
sprintf-percents [] out h = let e : out ≡ [] = cc in rw e (omega arith)
sprintf-percents (c ∷ []) out h = elim (Bool-cases (c == b'%')) [
  | inl e ↦
      let h' : some (no_verb ++ []) ≡ some out = rw e at h in
      let e' : out ≡ no_verb ++ [] = cc in rw (e', e) (omega arith)
  | inr e ↦
      let h' : some (c ∷ []) ≡ some out = rw e at h in
      let e' : out ≡ c ∷ [] = cc in rw (e', e) (omega arith)
]
sprintf-percents (c ∷ d ∷ s) out h = elim (Bool-cases (c == b'%')) [
  | inl e ↦
      let (rest, (e', r)) = directive_cases d s out (rw e at h) in
      let le = sprintf-percents s rest e' in
      elim r [
        | inl (f, e'') ↦ rw (e'', e, f) (omega (arith, le))
        | inr (f, (l, e'')) ↦ rw (e'', e, f) (omega (arith, le))
      ]
  | inr e ↦
      let (rest, e', e'') = in_front-some (c ∷ []) (sprintf (d ∷ s) []) out (rw e at h) in
      let le = sprintf-percents (d ∷ s) rest e' in rw (e'', e) le
]

-- A text with a percent sign does not print as it is.
pub sprintf_changed : (s out : Text) → has_percent s ≡ true → sprintf s [] ≡ some out → out ≢ s
unfolding sprintf extra missing
sprintf_changed [] out p h q = absurd (cc)
sprintf_changed (c ∷ []) out p h q =
    let e : (c == b'%') ≡ true = ground arith in
    let h' : some (no_verb ++ []) ≡ some out = rw e at h in absurd (cc)
sprintf_changed (c ∷ d ∷ s) out p h q = elim (Bool-cases (c == b'%')) [
  | inl e ↦
      let (rest, (e', r)) = directive_cases d s out (rw e at h) in
      let le = sprintf-percents s rest e' in
      elim r [
        | inl (f, e'') ↦
            let same : rest ≡ d ∷ s = cc in
            let more : percents (d ∷ s) ≤ percents s = rw same at le in
            absurd (omega (arith, rw f at more))
        | inr (f, (l, e'')) ↦ let same : d ≡ b'!' = cc in absurd (ground (arith, same, l))
      ]
  | inr e ↦
      let (rest, e', e'') = in_front-some (c ∷ []) (sprintf (d ∷ s) []) out (rw e at h) in
      sprintf_changed (d ∷ s) rest (ground arith) e' (cc)
]
