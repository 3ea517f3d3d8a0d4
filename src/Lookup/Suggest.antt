-- ===== src/Lookup/Suggest.antt =====
-- The suggested word behind a miss (source_codes/stardictd/src/lib/stddict.cpp, the loops `for (;;)`
-- of the four lookups).
use stardictd.Base.{
  ℕ, zero, suc, ◌+◌, ◌≤◌, ◌<◌, ◌≡◌, refl, ◌⊎◌, inl, inr, arith, Option, some, Bytes, ◌||◌, ltb,
  ◌==◌, Bool-cases, true, false,
}
use stardictd.Lookup.{suggest}

-- Between the suggestion `s` and the word's place `from` the common prefix only grows as one goes
-- back, and is never empty; the key before `s` has a shorter one, or none.
pub record Suggests (match : ℕ → ℕ) (from s : ℕ) : Type 0 where
  pub bounded : s ≤ from
  pub grows : (i : ℕ) → s ≤ i → i < from → match (i + 1) ≤ match i
  pub shares : (i : ℕ) → s ≤ i → i < from → 0 < match i
  pub stops : (j : ℕ) → j + 1 ≡ s → (match j ≡ 0) ⊎ (match j < match s)

-- No other suggestion fits: the four conditions determine it.
pub Suggests-unique :
    (match : ℕ → ℕ) (from s t : ℕ) → Suggests match from s → Suggests match from t → s ≡ t
Suggests-unique match from s t p q = elim (order s t) [
  | inl (inl lt) ↦ absurd (apart s t p q lt)
  | inl (inr same) ↦ same
  | inr lt ↦ absurd (apart t s q p lt)
]
  where
    order : (a b : ℕ) → ((a < b) ⊎ (a ≡ b)) ⊎ (b < a)
    order a b = grind arith

    apart : (a b : ℕ) → Suggests match from a → Suggests match from b → a < b → ⊥
    apart a (suc b) x y lt = ground (
      arith,
      x.grows b (omega arith) (omega (arith, y.bounded)),
      x.shares b (omega arith) (omega (arith, y.bounded)),
      y.stops b (omega arith),
    )
    apart a zero x y lt = absurd (omega arith)

module _ (prefix_match : Bytes → Bytes → ℕ) (get : ℕ → Option Bytes) (key : ℕ → Bytes)
    (str : Bytes) where
  abbrev pub matches : ℕ → ℕ
  matches i = prefix_match str (key i)

  suggest_stop :
      (i best : ℕ)
      → get i ≡ some (key i)
      → (matches i == 0 || ltb (matches i) best) ≡ true
      → suggest prefix_match get str (suc i) best ≡ some (suc i)
  unfolding suggest
  suggest_stop i best r h = rw r (rw h)

  suggest_on :
      (i best : ℕ)
      → get i ≡ some (key i)
      → (matches i == 0 || ltb (matches i) best) ≡ false
      → suggest prefix_match get str (suc i) best ≡ suggest prefix_match get str i (matches i)
  unfolding suggest
  suggest_on i best r h = rw r (rw h)

  further :
      (i s : ℕ)
      → Suggests matches i s
      → matches (suc i) ≤ matches i
      → 0 < matches i
      → Suggests matches (suc i) s
  further i s p grows shares = record {
    bounded = omega (arith, p.bounded);
    grows = λ j le lt. grind (arith, p.grows j);
    shares = λ j le lt. grind (arith, p.shares j);
    stops = p.stops;
  }

  here :
      (i : ℕ) → ((matches i ≡ 0) ⊎ (matches i < matches (suc i))) → Suggests matches (suc i) (suc i)
  here i h = record {
    bounded = omega arith;
    grows = λ j le lt. absurd (omega arith);
    shares = λ j le lt. absurd (omega arith);
    stops = λ j e. let same : j ≡ i = omega arith in rw same h;
  }

  -- If the keys below the word's place can be read and the scan starts with the match of the key at
  -- that place, it returns the suggestion that `Suggests` describes.
  pub suggest-Suggests :
      (from best : ℕ)
      → ((i : ℕ) → i < from → get i ≡ some (key i))
      → best ≡ matches from
      → (s : ℕ) × (suggest prefix_match get str from best ≡ some s) × Suggests matches from s
  suggest-Suggests zero best reads e = (
    0,
    unfold suggest in refl,
    record {
      bounded = omega arith;
      grows = λ j le lt. absurd (omega arith);
      shares = λ j le lt. absurd (omega arith);
      stops = λ j e. absurd (omega arith);
    },
  )
  suggest-Suggests (suc i) best reads e =
      elim (Bool-cases (matches i == 0 || ltb (matches i) best)) [
        | inl stop ↦
            (suc i, suggest_stop i best (reads i (omega arith)) stop, here i (ground arith))
        | inr on ↦
            let (s, runs, p) =
              suggest-Suggests i (matches i) (λ j lt. reads j (omega arith)) refl in
            (
              s,
              rw (suggest_on i best (reads i (omega arith)) on) runs,
              further i s p (ground arith) (ground arith),
            )
      ]
