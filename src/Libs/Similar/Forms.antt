-- ===== src/Libs/Similar/Forms.antt =====
-- The English words that another form of a word may stand for, said by the endings that they lose and
-- get (source_codes/stardictd/src/lib/stddict.cpp, `Libs::LookupSimilarWord`).
use stardictd.Base.{
  ℕ, zero, suc, ◌-◌, ◌<◌, Bool, true, false, ◌&&◌, ◌||◌, List, [], ◌∷◌, ◌++◌, append_assoc, ◌≡◌,
  ◌⊎◌, inl, inr, refl, ap, ◌∙◌, some, Bytes, codes, eqb_iff, ltb, ◌==◌, ==_iff, get_elem?, length,
  take, drop, arith, Option-cases,
}
use stardictd.Libs.Least.{Among}
use stardictd.Libs.Similar.{ends_in, from_end, is_vowel}

-- The endings that are cut, the ones behind a doubled consonant, and the letters behind which "es" is
-- an ending.
abbrev pub plain_endings : List Bytes
plain_endings =
    codes "s"
    ∷ codes "S"
    ∷ codes "ly"
    ∷ codes "LY"
    ∷ codes "ing"
    ∷ codes "ING"
    ∷ codes "ed"
    ∷ codes "ED"
    ∷ codes "er"
    ∷ codes "ER"
    ∷ codes "est"
    ∷ codes "EST"
    ∷ []

abbrev pub doubling_endings : List Bytes
doubling_endings =
    codes "ly" ∷ codes "LY" ∷ codes "ing" ∷ codes "ING" ∷ codes "ed" ∷ codes "ED" ∷ []

-- From `sWord` to the word that is looked up.
pub data Form (s : Bytes) : Bytes → Type 0 where
  -- walks, slowly, walking, walked, walker, slowest
  cut_ending : (stem e : Bytes) → Among e plain_endings → s ≡ stem ++ e → Form s stem
  -- boxes, dishes
  sibilant_es :
      (base tail : Bytes)
      → Among tail (codes "s" ∷ codes "x" ∷ codes "o" ∷ codes "ch" ∷ codes "sh" ∷ [])
      → s ≡ (base ++ tail) ++ codes "es"
      → Form s (base ++ tail)
  sibilant_es_capital :
      (base tail : Bytes)
      → Among tail (codes "S" ∷ codes "X" ∷ codes "O" ∷ codes "CH" ∷ codes "SH" ∷ [])
      → s ≡ (base ++ tail) ++ codes "ES"
      → Form s (base ++ tail)
  -- stopped, running
  cut_doubled :
      (stem e : Bytes) (a : ℕ)
      → Among e doubling_endings
      → is_vowel a ≡ false
      → s ≡ stem ++ a ∷ a ∷ e
      → Form s (stem ++ a ∷ [])
  -- loved, making
  cut_d : (stem : Bytes) → s ≡ stem ++ codes "ed" → Form s (stem ++ codes "e")
  cut_d_capital : (stem : Bytes) → s ≡ stem ++ codes "ED" → Form s (stem ++ codes "E")
  put_e : (stem : Bytes) → s ≡ stem ++ codes "ing" → Form s (stem ++ codes "e")
  put_e_capital : (stem : Bytes) → s ≡ stem ++ codes "ING" → Form s (stem ++ codes "E")
  -- carried, flies
  put_y :
      (stem e : Bytes)
      → Among e (codes "ied" ∷ codes "ies" ∷ [])
      → s ≡ stem ++ e
      → Form s (stem ++ codes "y")
  put_y_capital :
      (stem e : Bytes)
      → Among e (codes "IED" ∷ codes "IES" ∷ [])
      → s ≡ stem ++ e
      → Form s (stem ++ codes "Y")

take-drop : (n : ℕ) (s : Bytes) → s ≡ take n s ++ drop n s
take-drop zero s = refl
take-drop (suc n) [] = refl
take-drop (suc n) (c ∷ s) = ap (◌∷◌ c) (take-drop n s)

take-suc :
    (n : ℕ) (s : Bytes) (a : ℕ) → get_elem? s n ≡ some a → take (suc n) s ≡ take n s ++ a ∷ []
take-suc n [] a e = absurd (cc e)
take-suc zero (c ∷ s) a e = ground (arith, e)
take-suc (suc n) (c ∷ s) a e = ap (◌∷◌ c) (take-suc n s a e)

-- A word with an ending is its front and the ending.
pub ends_in_lem : (s e : Bytes) → ends_in s e ≡ true → s ≡ take (length s - length e) s ++ e
ends_in_lem s e h =
    let same : drop (length s - length e) s ≡ e = (eqb_iff _ e).0 h in
    take-drop (length s - length e) s ∙ ap (λ x. take (length s - length e) s ++ x) same

pub from_end_lem :
    (s : Bytes) (k : ℕ) (test : ℕ → Bool)
    → from_end s k test ≡ true
    → (a : ℕ) × (get_elem? s (length s - k) ≡ some a) × (test a ≡ true)
from_end_lem s k test h = elim (Option-cases (get_elem? s (length s - k))) [
  | inl outside ↦ absurd (ground (arith, h, outside))
  | inr (a, at) ↦ (a, at, ground (arith, h, at))
]

-- The front gets the letter that stands behind it.
pub front_suc :
    (s : Bytes) (k : ℕ) (a : ℕ)
    → k < length s
    → get_elem? s (length s - suc k) ≡ some a
    → take (length s - k) s ≡ take (length s - suc k) s ++ a ∷ []
front_suc s k a h e =
    let index : length s - k ≡ suc (length s - suc k) = omega (arith, h) in
    ap (λ n. take n s) index ∙ take-suc (length s - suc k) s a e

pub or_lem : (a b : Bool) → (a || b) ≡ true → (a ≡ true) ⊎ (b ≡ true)
or_lem true b h = inl refl
or_lem false b h = inr h

pub and_lem : (a b : Bool) → (a && b) ≡ true → (a ≡ true) × (b ≡ true)
and_lem true b h = (refl, h)
and_lem false b h = absurd (cc h)

-- The letters before "es", where `x`, `y`, `z` may stand alone, and `h` behind `u` or `v`.
pub before_es_lem :
    (s : Bytes) (x y z h u v : ℕ)
    → 3 < length s
    → from_end s 3 (λ a.
      a == x
      || a == y
      || a == z
      || (ltb 4 (length s) && a == h && from_end s 4 (λ b. b == u || b == v)))
      ≡ true
    → (base tail : Bytes) × Among tail
        ((x ∷ []) ∷ (y ∷ []) ∷ (z ∷ []) ∷ (u ∷ h ∷ []) ∷ (v ∷ h ∷ []) ∷ [])
      × (take (length s - 2) s ≡ base ++ tail)
before_es_lem s x y z h u v long e =
    let (a, at, test) = from_end_lem s 3 _ e in
    let front = front_suc s 2 a (omega (arith, long)) at in
    let is = λ (w : ℕ) (k : (a == w) ≡ true).
      front ∙ ap (λ c. take (length s - 3) s ++ c ∷ []) ((==_iff a w).0 k) in
    elim (or_lem _ _ test) [
      | inr test3 ↦
          let (both, next) = and_lem (ltb 4 (length s) && a == h) _ test3 in
          two a (and_lem (ltb 4 (length s)) (a == h) both).1 next front
      | inl test1 ↦ elim (or_lem _ _ test1) [
        | inr k ↦ (take (length s - 3) s, z ∷ [], inr (inr (inl refl)), is z k)
        | inl test2 ↦ elim (or_lem _ _ test2) [
          | inl k ↦ (take (length s - 3) s, x ∷ [], inl refl, is x k)
          | inr k ↦ (take (length s - 3) s, y ∷ [], inr (inl refl), is y k)
        ]
      ]
    ]
  where
    two :
        (a : ℕ)
        → (a == h) ≡ true
        → from_end s 4 (λ b. b == u || b == v) ≡ true
        → take (length s - 2) s ≡ take (length s - 3) s ++ a ∷ []
        → (base tail : Bytes) × Among tail
            ((x ∷ []) ∷ (y ∷ []) ∷ (z ∷ []) ∷ (u ∷ h ∷ []) ∷ (v ∷ h ∷ []) ∷ [])
          × (take (length s - 2) s ≡ base ++ tail)
    two a is_h next front =
        let (b, at, letter) = from_end_lem s 4 (λ b. b == u || b == v) next in
        let front' = front_suc s 3 b long at in
        let base = take (length s - 4) s in
        let both : (w : ℕ) → (b == w) ≡ true → take (length s - 2) s ≡ base ++ w ∷ h ∷ [] = λ w k.
          front
          ∙ ap (λ t. t ++ a ∷ []) front'
          ∙ append_assoc base (b ∷ []) (a ∷ [])
          ∙ ap (λ c. base ++ c ∷ a ∷ []) ((==_iff b w).0 k)
          ∙ ap (λ c. base ++ w ∷ c ∷ []) ((==_iff a h).0 is_h) in
        elim (or_lem (b == u) (b == v) letter) [
          | inl k ↦ (base, u ∷ h ∷ [], inr (inr (inr (inl refl))), both u k)
          | inr k ↦ (base, v ∷ h ∷ [], inr (inr (inr (inr (inl refl)))), both v k)
        ]
