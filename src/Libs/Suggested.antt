-- ===== src/Libs/Suggested.antt =====
-- Which of the dictionaries' suggestions is shown (source_codes/stardictd/src/lib/stddict.cpp,
-- `Libs::GetSuggestWord`).
use stardictd.Base.{
  ℕ, ◌≡◌, refl, sym, ap, ◌∙◌, arith, List, [], ◌∷◌, ◌++◌, Option, none, some, Bytes, ltb, ◌==◌,
  if◌then◌else◌,
}
use stardictd.Compare.{Ordering, Comparison}
use stardictd.Compare.Order.{IsPreorder}
use stardictd.Libs.Least.{
  IsLeast, words_read, fold_words, fold_words-append, weigh_all-fold_words, fold_pick-IsLeast,
}
use stardictd.Libs.{
  Place, Library, suggest_word_at, suggest_synonym_at, pick, prefer, word_held, get_suggest_word,
}

module _ (collate : Comparison) (prefix_match : Bytes → Bytes → ℕ) (str : Bytes) where
  abbrev matched : Bytes → ℕ
  matched = prefix_match str

  -- The order of the suggestions: more in common with the word first, then by collation.
  abbrev pub by_match : Comparison
  by_match a b =
      if ltb (matched b) (matched a)
      then Ordering.lt
      else if matched a == matched b
      then collate a b
      else Ordering.gt

  by_match-IsPreorder : IsPreorder collate → IsPreorder by_match
  by_match-IsPreorder pre = record {
    flips = λ a b. ground (arith, pre.flips a b);
    trans = λ a b c. ground (arith, pre.trans a b c);
  }

  abbrev hold : Option Bytes → Option (ℕ × Bytes)
  hold none = none
  hold (some w) = some (matched w, w)

  -- `best` is always the match of the word held.
  prefer-hold :
      (c : Option Bytes) (x : Bytes)
      → prefer collate prefix_match str (hold c) x ≡ hold (pick by_match c x)
  unfolding prefer pick
  prefer-hold none x = refl
  prefer-hold (some c) x = ground arith

  fold_prefer :
      (c : Option Bytes) (ws : List Bytes)
      → fold_words (prefer collate prefix_match str) (hold c) ws
        ≡ hold (fold_words (pick by_match) c ws)
  fold_prefer c [] = refl
  fold_prefer c (w ∷ ws) = rw (prefer-hold c w) (fold_prefer (pick by_match c w) ws)

  word_held-hold : (c : Option Bytes) → word_held collate prefix_match str (hold c) ≡ c
  word_held-hold none = refl
  word_held-hold (some w) = refl

  -- If the comparison ranks the strings and the suggested words and synonyms can be read,
  -- `GetSuggestWord` returns one of them that has most in common with the word looked up and, of
  -- those, one that no other goes before; or null if there is none.
  pub get_suggest_word-IsLeast :
      IsPreorder collate
      → (oLib : List Library) (ps : List Place) (ws vs : List Bytes)
      → words_read (suggest_word_at oLib) ps ≡ some ws
      → words_read (suggest_synonym_at oLib) ps ≡ some vs
      → (o : Option Bytes) × (get_suggest_word collate prefix_match str oLib ps ≡ some o)
        × IsLeast by_match (ws ++ vs) o
  unfolding get_suggest_word
  get_suggest_word-IsLeast pre oLib ps ws vs e f =
      let weigh = prefer collate prefix_match str in
      let all = sym (fold_words-append weigh ws vs none) ∙ fold_prefer none (ws ++ vs) in
      let o = fold_words (pick by_match) none (ws ++ vs) in
      (
        o,
        rw (weigh_all-fold_words weigh (suggest_word_at oLib) ps ws none e) (
            rw (weigh_all-fold_words weigh (suggest_synonym_at oLib) ps vs _ f)
              (ap some (ap (word_held collate prefix_match str) all ∙ word_held-hold o))),
        fold_pick-IsLeast by_match (by_match-IsPreorder pre) (ws ++ vs),
      )
