-- ===== src/Libs/Bound.antt =====
-- How many words a list has (`next`, `previous` and `ListWords` of
-- source_codes/stardictd/src/stardictdmain.cpp).
use stardictd.Base.{
  ℕ, zero, suc, ◌-◌, ◌≤◌, List, [], ◌∷◌, ◌≡◌, ◌⊎◌, inl, inr, Option, none, some, ◌>>=◌, Bytes,
  length, arith, Option-cases,
}
use stardictd.Compare.{Comparison}
use stardictd.Libs.{Place, po_get_current_word}
use stardictd.Libs.Next.{Stepper, libraries, po_get_next_word, more_words, next_words, list_words}
use stardictd.Libs.Previous.{po_get_pre_word, previous_words}

module _ (step : List Place → Option (List Place × Option Bytes)) where
  -- A step and the words behind it.
  step_bound :
      (left : ℕ) (words : List Bytes) (r : Option (List Place × Option Bytes))
      → ((ps : List Place) (rest : List Bytes)
          → more_words step left ps ≡ some rest
          → length rest ≤ left)
      → (r >>= λ s. elim s.1 [
        | none ↦ some []
        | some word ↦ more_words step left s.0 >>= λ rest. some (word ∷ rest)
      ])
        ≡ some words
      → length words ≤ suc left
  step_bound left words none ih e = absurd (cc e)
  step_bound left words (some (ps, none)) ih e = ground (arith, e)
  step_bound left words (some (ps, some word)) ih e =
      elim (Option-cases (more_words step left ps)) [
        | inl stuck ↦ absurd (ground (arith, e, stuck))
        | inr (rest, found) ↦ ground (arith, e, found, ih ps rest found)
      ]

  more_words_bound :
      (left : ℕ) (ps : List Place) (words : List Bytes)
      → more_words step left ps ≡ some words
      → length words ≤ left
  unfolding more_words
  more_words_bound zero ps words e = ground (arith, e)
  more_words_bound (suc left) ps words e = step_bound left words (step ps) (more_words_bound left) e

  -- The current word and those behind it.
  list_bound :
      (left : ℕ) (words : List Bytes) (ps : List Place) (current : Option (Option Bytes))
      → (current >>= λ w. elim w [
        | none ↦ some []
        | some word ↦ more_words step left ps >>= λ rest. some (word ∷ rest)
      ])
        ≡ some words
      → length words ≤ suc left
  list_bound left words ps none e = absurd (cc e)
  list_bound left words ps (some none) e = ground (arith, e)
  list_bound left words ps (some (some word)) e =
      step_bound left words (some (ps, some word)) (more_words_bound left) e

module _ (oLib : List Stepper) (collate : Comparison) where
  -- A client that asks for the words behind a word (`next`) or before it (`previous`), or that is sent
  -- the list of the current word and those behind it (`ListWords`), gets no more words than the count
  -- that it gave, if that is 1 or more.
  pub words_bound :
      (s_word : Bytes) (maxwordcount : ℕ) (ps : List Place) (words : List Bytes)
      → 1 ≤ maxwordcount
      → (next_words oLib collate s_word maxwordcount ps ≡ some words)
        ⊎ ((previous_words oLib collate s_word maxwordcount ps ≡ some words)
            ⊎ (list_words oLib collate maxwordcount ps ≡ some words))
      → length words ≤ maxwordcount
  unfolding next_words previous_words list_words
  words_bound s_word maxwordcount ps words h (inl e) =
      let step = po_get_next_word oLib collate none in
      let first = po_get_next_word oLib collate (some s_word) ps in
      let bound =
        step_bound step (maxwordcount - 1) words first (more_words_bound step (maxwordcount - 1))
          e in
      omega (arith, bound)
  words_bound s_word maxwordcount ps words h (inr (inl e)) =
      let step = po_get_pre_word oLib collate none in
      let first = po_get_pre_word oLib collate (some s_word) ps in
      let bound =
        step_bound step (maxwordcount - 1) words first (more_words_bound step (maxwordcount - 1))
          e in
      omega (arith, bound)
  words_bound s_word maxwordcount ps words h (inr (inr e)) =
      let step = po_get_next_word oLib collate none in
      let current = po_get_current_word collate (libraries oLib) ps in
      let bound = list_bound step (maxwordcount - 1) words ps current e in omega (arith, bound)
