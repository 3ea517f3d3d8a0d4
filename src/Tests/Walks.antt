-- ===== src/Tests/Walks.antt =====
-- Walks over a file of four words, and the theorems on it
-- (source_codes/stardictd/src/lib/stddict.cpp, `Dict`).
use stardictd.Base.{
  ℕ, zero, suc, ◌<◌, ◌≡◌, refl, arith, List, [], ◌∷◌, ◌++◌, some, Option, codes, Bytes, false, true,
  Bool, ◌>>=◌, take, map, get_or, get_elem?, ◌==◌,
}
use stardictd.Base.Int.{ℤ, pos}
use stardictd.Compare.{strcmp}
use stardictd.Dict.Count.{IsRun, get_orig_word_count-IsRun}
use stardictd.Dict.Reads.{Reads}
use stardictd.Dict.Rules.{matching, lookup_with_rule-matching}
use stardictd.Dict.Walk.{IsPrevious, IsNext, get_word_prev-IsPrevious, get_word_next-IsNext}
use stardictd.Dict.{any_index, get_word_prev, get_word_next, get_orig_word_count, lookup_with_rule}
use stardictd.Lookup.{invalid_index, unset_index}

abbrev four_words : List Bytes
four_words = codes "ant" ∷ codes "bee" ∷ codes "bee" ∷ codes "cat" ∷ []

abbrev word : ℕ → Bytes
word i = get_or four_words i []

-- A file without a state.
abbrev read_word : ℕ → ℕ → Option (ℕ × Bytes)
read_word s i = do w ← get_elem? four_words i; some (s, w)

abbrev AnyState : ℕ → Type 0
AnyState s = s ≡ s

four_words-Reads : Reads read_word 4 word AnyState
four_words-Reads = record { read = λ s i h lt. read s i lt }
  where
    read : (s i : ℕ) → i < 4 → (t : ℕ) × (read_word s i ≡ some (t, word i)) × (t ≡ t)
    read s zero lt = (s, refl, refl)
    read s (suc zero) lt = (s, refl, refl)
    read s (suc (suc zero)) lt = (s, refl, refl)
    read s (suc (suc (suc zero))) lt = (s, refl, refl)
    read s (suc (suc (suc (suc i)))) lt = absurd (omega arith)

walks :
    (get_word_prev read_word 4 0 (pos 2) ≡ some (0, true, pos 0))
    × (get_word_prev read_word 4 0 invalid_index ≡ some (0, true, pos 3))
    × (get_word_next read_word 4 0 1 ≡ some (0, pos 3))
    × (get_word_next read_word 4 0 3 ≡ some (0, invalid_index))
    × (get_orig_word_count read_word 4 0 2 ≡ some (0, 1, 2))
unfolding get_word_prev get_word_next get_orig_word_count strcmp
walks = (refl, refl, refl, refl, refl)

get_word_prev-IsPrevious_example :
    (t : ℕ) × (found : Bool) × (pidx : ℤ) × (get_word_prev read_word 4 0 (pos 2)
      ≡ some (t, found, pidx))
    × AnyState t
    × IsPrevious word 2 found pidx
get_word_prev-IsPrevious_example =
    get_word_prev-IsPrevious read_word 4 word AnyState four_words-Reads 2 (omega arith) 0 refl

get_word_next-IsNext_example :
    (t : ℕ) × (idx : ℤ) × (get_word_next read_word 4 0 1 ≡ some (t, idx))
    × AnyState t
    × IsNext word 4 1 idx
get_word_next-IsNext_example =
    get_word_next-IsNext read_word 4 word AnyState four_words-Reads 1 (omega arith) 0 refl

get_orig_word_count-IsRun_example :
    (t : ℕ) × (first : ℕ) × (n : ℕ) × (get_orig_word_count read_word 4 0 2 ≡ some (t, first, n))
    × AnyState t
    × IsRun word 4 2 first n
get_orig_word_count-IsRun_example =
    get_orig_word_count-IsRun read_word 4 word AnyState four_words-Reads 2 (omega arith) 0 refl

abbrev starts_with_b : Bytes → Bool
starts_with_b [] = false
starts_with_b (c ∷ w) = c == b'b'

lookup_with_rule-matching_example :
    (t : ℕ) × (lookup_with_rule read_word starts_with_b 4 10 0
      ≡ some (
        t,
        any_index (map pos (take 9 (matching starts_with_b word 4 0))),
        map pos (take 9 (matching starts_with_b word 4 0)) ++ (unset_index ∷ []),
      ))
    × AnyState t
lookup_with_rule-matching_example =
    lookup_with_rule-matching read_word 4 word AnyState four_words-Reads starts_with_b 10 0 refl
