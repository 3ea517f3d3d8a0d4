-- ===== src/Tests/Libraries.antt =====
-- Two dictionaries and the words they stand at (source_codes/stardictd/src/lib/stddict.cpp, `Libs`).
use stardictd.Base.{
  zero, inr, Bool, true, false, ◌-◌, inl, ℕ, suc, ◌≤◌, length, ◌>>=◌, arith, ltb, if◌then◌else◌,
  ◌≡◌, refl, List, [], ◌∷◌, some, none, Option, codes, Bytes, get_elem?,
}
use stardictd.Base.Int.{ℤ, pos, negsuc}
use stardictd.Compare.{strcmp}
use stardictd.Libs.Least.{IsLeast, words_read, po_get_current_word-IsLeast}
use stardictd.Libs.Suggested.{by_match, get_suggest_word-IsLeast}
use stardictd.Libs.{
  Library, Place, local_dict, pick, prefer, current_word_at, current_synonym_at, suggest_word_at,
  suggest_synonym_at, po_get_current_word, get_suggest_word,
}
use stardictd.Libs.Next.{
  Stepper, libraries, hold, read_loop, each_place, same_file, advance, advance_others, move_at,
  at_local, seek_word, seek_synonym, move_word, move_synonym, step_all, finish, po_get_next_word,
  more_words, next_words,
}
use stardictd.Libs.Next.Current.{from_current, po_get_next_word-po_get_current_word}
use stardictd.Libs.Bound.{words_bound}
use stardictd.Libs.Previous.{
  previous_at, previous_word_at, previous_synonym_at, back_word, back_synonym, step_back,
  finish_back, po_get_pre_word, previous_words,
}
use stardictd.Libs.Previous.Before.{from_previous}
use stardictd.Libs.Next.Once.{IsOnce}
use stardictd.Libs.Previous.Greatest.{
  WordBefore, SynonymBefore, AllBefore, IsGreatest, from_end, from_word, at_first, no_index,
  po_get_pre_word-IsGreatest,
}
use stardictd.Lookup.{unset_index, invalid_index}
use stardictd.Lookup.Prefix.{prefix_match}
use stardictd.Tests.Platform.{casecmp, casecmp-IsPreorder, ascii_match}

abbrev word_in : List Bytes → ℤ → Option Bytes
word_in ws (pos i) = get_elem? ws i
word_in ws (negsuc n) = none

abbrev animals : Library
animals = record {
  narticles = 2;
  nsynarticles = 0;
  get_word = word_in (codes "ant" ∷ codes "cat" ∷ []);
  get_synonym_word = λ i. none;
}

abbrev insects : Library
insects = record {
  narticles = 2;
  nsynarticles = 1;
  get_word = word_in (codes "ant" ∷ codes "bee" ∷ []);
  get_synonym_word = word_in (codes "cab" ∷ []);
}

abbrev places : List Place
places =
    (
      record { type_of = local_dict; index = 0 },
      record {
        idx = pos 1;
        idx_suggest = pos 1;
        synidx = unset_index;
        synidx_suggest = unset_index;
      },
    )
    ∷ (
      record { type_of = local_dict; index = 1 },
      record { idx = invalid_index; idx_suggest = pos 1; synidx = pos 0; synidx_suggest = pos 0 },
    )
    ∷ []

shown :
    (po_get_current_word casecmp (animals ∷ insects ∷ []) places ≡ some (some (codes "cab")))
    × (get_suggest_word casecmp ascii_match (codes "cats") (animals ∷ insects ∷ []) places
        ≡ some (some (codes "cat")))
unfolding po_get_current_word get_suggest_word pick prefer current_word_at current_synonym_at
    suggest_word_at suggest_synonym_at strcmp prefix_match
shown = (refl, refl)

words_at :
    (words_read (current_word_at (animals ∷ insects ∷ [])) places ≡ some (codes "cat" ∷ []))
    × (words_read (current_synonym_at (animals ∷ insects ∷ [])) places ≡ some (codes "cab" ∷ []))
    × (words_read (suggest_word_at (animals ∷ insects ∷ [])) places
        ≡ some (codes "cat" ∷ codes "bee" ∷ []))
    × (words_read (suggest_synonym_at (animals ∷ insects ∷ [])) places ≡ some (codes "cab" ∷ []))
unfolding current_word_at current_synonym_at suggest_word_at suggest_synonym_at
words_at = (refl, refl, refl, refl)

po_get_current_word-IsLeast_example :
    (o : Option Bytes) × (po_get_current_word casecmp (animals ∷ insects ∷ []) places ≡ some o)
    × IsLeast casecmp (codes "cat" ∷ codes "cab" ∷ []) o
po_get_current_word-IsLeast_example =
    po_get_current_word-IsLeast casecmp casecmp-IsPreorder (animals ∷ insects ∷ []) places
      (codes "cat" ∷ []) (codes "cab" ∷ []) words_at.0 words_at.1

get_suggest_word-IsLeast_example :
    (o : Option Bytes) × (get_suggest_word casecmp ascii_match
        (codes "cats")
        (animals ∷ insects ∷ [])
        places
      ≡ some o)
    × IsLeast
        (by_match casecmp ascii_match (codes "cats"))
        (codes "cat" ∷ codes "bee" ∷ codes "cab" ∷ [])
        o
get_suggest_word-IsLeast_example =
    get_suggest_word-IsLeast casecmp ascii_match (codes "cats") casecmp-IsPreorder
      (animals ∷ insects ∷ []) places (codes "cat" ∷ codes "bee" ∷ []) (codes "cab" ∷ []) words_at.2
      words_at.3

-- The next index of a list with `n` words.
abbrev next_in : ℕ → ℤ → ℤ
next_in n (pos i) = if ltb (suc i) n then pos (suc i) else invalid_index
next_in n (negsuc i) = invalid_index

-- The result of `GetWordPrev` and `pidx`, for a list with `n` words.
abbrev prev_in : ℕ → ℤ → Bool × ℤ
prev_in n (pos i) = if ltb 0 i then (true, pos (i - 1)) else (false, pos 0)
prev_in n (negsuc i) = (true, pos (n - 1))

abbrev steppers : List Stepper
steppers =
    record {
      library = animals;
      lookup = λ s. (pos 0, pos 0);
      lookup_synonym = λ s. (unset_index, unset_index);
      word_next = next_in 2;
      synonym_next = next_in 0;
      word_prev = prev_in 2;
      synonym_prev = prev_in 0;
    }
    ∷ record {
      library = insects;
      lookup = λ s. (pos 0, pos 0);
      lookup_synonym = λ s. (pos 0, pos 0);
      word_next = next_in 2;
      synonym_next = next_in 1;
      word_prev = prev_in 2;
      synonym_prev = prev_in 1;
    }
    ∷ []

-- Both dictionaries have "ant", so the step from it moves both, and "bee" is next, then "cab".
listed :
    next_words steppers casecmp (codes "ant") 3 places
    ≡ some (codes "bee" ∷ codes "cab" ∷ codes "cat" ∷ [])
unfolding next_words more_words po_get_next_word read_loop hold each_place same_file advance
    advance_others move_at at_local seek_word seek_synonym move_word move_synonym step_all finish
    po_get_current_word pick current_word_at current_synonym_at strcmp
listed = refl

words_bound_example : length (codes "bee" ∷ codes "cab" ∷ codes "cat" ∷ []) ≤ 3
words_bound_example =
    words_bound steppers casecmp (codes "ant") 3 places
      (codes "bee" ∷ codes "cab" ∷ codes "cat" ∷ []) (omega arith) (inl listed)

places-IsOnce : IsOnce places
places-IsOnce zero zero q p e f l l' same = refl
places-IsOnce zero (suc zero) q p e f l l' same = absurd (ground (arith, e, f, same))
places-IsOnce (suc zero) zero q p e f l l' same = absurd (ground (arith, e, f, same))
places-IsOnce (suc zero) (suc zero) q p e f l l' same = refl
places-IsOnce zero (suc (suc i)) q p e f l l' same = absurd (cc f)
places-IsOnce (suc zero) (suc (suc i)) q p e f l l' same = absurd (cc f)
places-IsOnce (suc (suc k)) i q p e f l l' same = absurd (cc e)

po_get_next_word-po_get_current_word_example : po_get_next_word steppers casecmp none places ≡ (
    po_get_current_word casecmp (libraries steppers) places
    >>= from_current steppers casecmp places)
po_get_next_word-po_get_current_word_example =
    po_get_next_word-po_get_current_word steppers casecmp places places-IsOnce

-- From the end of the insects' words and the second animal: "bee" is before the one and "ant" before
-- the other; behind that step "ant" is before both, and nothing before it. A lookup that gives the
-- first word of each dictionary leaves nothing before it.
back :
    (more_words (po_get_pre_word steppers casecmp none) 5 places
      ≡ some (codes "bee" ∷ codes "ant" ∷ []))
    × (previous_words steppers casecmp (codes "ant") 3 places ≡ some [])
unfolding previous_words more_words po_get_pre_word read_loop hold each_place same_file advance
    advance_others move_at at_local seek_word seek_synonym back_word back_synonym step_back
    finish_back previous_at previous_word_at previous_synonym_at strcmp
back = (refl, refl)

words_before : AllBefore (WordBefore steppers) places (codes "ant" ∷ codes "bee" ∷ [])
words_before = (
  some (codes "ant"),
  codes "bee" ∷ [],
  inr (_, refl, refl, from_word 1 (codes "ant") (omega arith) (omega arith) refl refl),
  (some (codes "bee"), [], inr (_, refl, refl, from_end (codes "bee") refl refl), refl, refl),
  refl,
)

synonyms_before : AllBefore (SynonymBefore steppers) places []
synonyms_before = (
  none,
  [],
  inr (_, refl, refl, no_index 0 (omega arith)),
  (none, [], inr (_, refl, refl, at_first), refl, refl),
  refl,
)

po_get_pre_word-IsGreatest_example :
    (o : Option Bytes) × (po_get_pre_word steppers casecmp none places
      ≡ from_previous steppers casecmp places o)
    × IsGreatest casecmp (codes "ant" ∷ codes "bee" ∷ []) o
po_get_pre_word-IsGreatest_example =
    po_get_pre_word-IsGreatest casecmp casecmp-IsPreorder steppers places
      (codes "ant" ∷ codes "bee" ∷ []) [] places-IsOnce words_before synonyms_before
