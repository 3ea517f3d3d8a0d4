-- ===== src/Libs/Similar/Total.antt =====
-- The lookup of other spellings comes to an end, and what its index stands for
-- (source_codes/stardictd/src/lib/stddict.cpp, `Libs`).
use stardictd.Base.{
  ℕ, zero, suc, ◌+◌, ◌<◌, Bool, true, false, ◌≡◌, ◌⊎◌, inl, inr, refl, sym, ap, ◌∙◌, subst, Option,
  none, some, Bytes, if◌then◌else◌, arith, Bool-cases,
}
use stardictd.Base.Int.{ℤ, pos}
use stardictd.Lookup.{invalid_index}
use stardictd.Libs.Similar.{
  Cases, Speller, Search, other_forms, other_cases, walk_same, same_here, near, lookup_similar_word,
  simple_lookup_word,
}
use stardictd.Libs.Similar.Found.{IsAnswer}
use stardictd.Libs.Similar.Answer.{simple_lookup_word-IsAnswer}

-- An index that `Lookup` and `GetWordPrev` leave: the mark, or that of a word.
abbrev pub IsInside : Speller → ℤ → Type 0
IsInside d idx = (idx ≡ invalid_index) ⊎ ((m : ℕ) × (idx ≡ pos m) × (m < d.wordcount))

-- What is expected of a file: its words can be read, a lookup that fails leaves an index of the file,
-- and `GetWordPrev` goes to an earlier word, or to some word from the mark.
pub record IsFile (d : Speller) : Type 0 where
  pub reads : (m : ℕ) → m < d.wordcount → (w : Bytes) × (d.get_word (pos m) ≡ some w)
  pub misses : (w : Bytes) → (d.lookup w).0 ≡ false → IsInside d (d.lookup w).1
  pub steps_back :
      (m : ℕ)
      → (d.get_word_prev (pos m)).0 ≡ true
      → (k : ℕ) × ((d.get_word_prev (pos m)).1 ≡ pos k) × (k < m)
  pub starts_back :
      (d.get_word_prev invalid_index).0 ≡ true
      → (k : ℕ) × ((d.get_word_prev invalid_index).1 ≡ pos k) × (k < d.wordcount)

module _ (c : Cases) (d : Speller) (s_word : Bytes) (file : IsFile d) where
  abbrev Walked : Option (Bool × ℤ) → Type 0
  Walked o = (r : Bool × ℤ) × (o ≡ some r) × IsInside d r.1

  -- One round, when the previous index is that of a word.
  round :
      (left k : ℕ) (found : Bool) (idx : ℤ)
      → IsInside d idx
      → (d.get_word_prev idx).1 ≡ pos k
      → k < d.wordcount
      → (d.get_word_prev idx).0 ≡ true
      → Walked (walk_same c d s_word left true (pos k))
      → Walked (walk_same c d s_word (suc left) found idx)
  unfolding walk_same
  round left k found idx inside at lt more (r, e, h) =
      let word = file.reads k lt in
      elim (Bool-cases (d.casecmp word.0 s_word)) [
        | inl same ↦ (r, ground (arith, at, more, word.1, same, e), h)
        | inr other ↦ ((found, idx), ground (arith, at, more, word.1, other), inside)
      ]

  over :
      (left : ℕ) (found : Bool) (idx : ℤ)
      → IsInside d idx
      → (d.get_word_prev idx).0 ≡ false
      → Walked (walk_same c d s_word (suc left) found idx)
  unfolding walk_same
  over left found idx inside e = ((found, idx), ground (arith, e), inside)

  walk_from :
      (left m : ℕ) (found : Bool)
      → m < left
      → m < d.wordcount
      → Walked (walk_same c d s_word left found (pos m))
  walk_from zero m found fuel lt = absurd (omega (arith, fuel))
  walk_from (suc left) m found fuel lt = elim (Bool-cases (d.get_word_prev (pos m)).0) [
    | inr e ↦ over left found (pos m) (inr (m, refl, lt)) e
    | inl more ↦
        let back = file.steps_back m more in
        let bound : back.0 < d.wordcount = omega (arith, lt, back.2) in
        round left back.0 found (pos m) (inr (m, refl, lt)) back.1 bound more
          (walk_from left back.0 true (omega (arith, fuel, back.2)) bound)
  ]

  walk_total :
      (idx : ℤ) → IsInside d idx → Walked (walk_same c d s_word (d.wordcount + 2) false idx)
  walk_total idx (inr (m, e, lt)) =
      subst (λ x. Walked (walk_same c d s_word (d.wordcount + 2) false x)) (sym e)
        (walk_from (d.wordcount + 2) m false (omega (arith, lt)) lt)
  walk_total idx (inl e) =
      subst (λ x. Walked (walk_same c d s_word (d.wordcount + 2) false x)) (sym e)
        (subst (λ f. Walked (walk_same c d s_word f false invalid_index)) fuel from_mark)
    where
      fuel : suc (d.wordcount + 1) ≡ d.wordcount + 2
      fuel = omega arith

      from_mark : Walked (walk_same c d s_word (suc (d.wordcount + 1)) false invalid_index)
      from_mark = elim (Bool-cases (d.get_word_prev invalid_index).0) [
        | inr stop ↦ over (d.wordcount + 1) false invalid_index (inl refl) stop
        | inl more ↦
            let back = file.starts_back more in
            round (d.wordcount + 1) back.0 false invalid_index (inl refl) back.1 back.2 more
              (walk_from (d.wordcount + 1) back.0 true (omega (arith, back.2)) back.2)
      ]

  same_here_total :
      (r : Bool × ℤ) → IsInside d r.1 → (hit : Option ℤ) × (same_here c d s_word r ≡ some hit)
  unfolding same_here
  same_here_total (true, idx) inside = (some idx, refl)
  same_here_total (false, idx) (inl e) = (none, rw e refl)
  same_here_total (false, idx) (inr (m, e, lt)) =
      let word = file.reads m lt in
      ((if d.casecmp word.0 s_word then some (pos m) else none), rw e (ground (arith, word.1)))

  near_total :
      (idx : ℤ) (s : Search) → IsInside d idx → (t : Search) × (near c d s_word idx s ≡ some t)
  unfolding near
  near_total idx (some i, g) inside = ((some i, g), refl)
  near_total idx (none, g) inside =
      let walked = walk_total idx inside in
      let here = same_here_total walked.0 walked.2 in
      ((here.0, g), ground (arith, walked.1, here.1))

  returns :
      (b : Bool) → (d.lookup s_word).0 ≡ b → (s : Search) × (simple_lookup_word c d s_word ≡ some s)
  unfolding simple_lookup_word lookup_similar_word
  returns true e = ((some (d.lookup s_word).1, (d.lookup s_word).2), ground (arith, e))
  returns false e =
      let idx = (d.lookup s_word).1 in
      let start = other_cases c d s_word (none, (d.lookup s_word).2) in
      let found = near_total idx start (file.misses s_word e) in
      (other_forms c d s_word found.0, ground (arith, e, found.1))

  -- In a file whose words can be read, where a lookup that fails leaves an index of the file and
  -- `GetWordPrev` goes back, `SimpleLookupWord` comes to an end, and an index that it finds is one that
  -- `Lookup` gives for the word or for another case or English form of it, or the index of a word that
  -- `stardict_casecmp` takes for the given one.
  pub simple_lookup_word_total :
      (s : Search) × (simple_lookup_word c d s_word ≡ some s)
      × ((i : ℤ) → s.0 ≡ some i → IsAnswer c d s_word i)
  simple_lookup_word_total =
      let result = returns _ refl in
      (
        result.0,
        result.1,
        λ i e.
            simple_lookup_word-IsAnswer c d s_word i result.0.1
              (result.1 ∙ ap (λ x. some (x, result.0.1)) e),
      )
