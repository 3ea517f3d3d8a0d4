-- ===== src/Libs/Similar.antt =====
-- The lookup of other spellings of a word (`Libs::LookupSimilarWord`, `LookupSynonymSimilarWord`,
-- `SimpleLookupWord` of source_codes/stardictd/src/lib/stddict.cpp).
pub mod Forms
pub mod Found
pub mod Endings
pub mod Answer
pub mod Total
use stardictd.Base.{
  ℕ, zero, suc, ◌+◌, ◌-◌, Bool, true, false, not, ◌&&◌, ◌||◌, List, [], ◌∷◌, ◌++◌, Option, none,
  some, ◌>>=◌, Bytes, codes, eqb, ltb, ◌==◌, if◌then◌else◌, get_elem?, length, take, drop,
}
use stardictd.Base.Int.{ℤ, pos, negsuc}

-- The changes of case, of glib: `g_utf8_strdown`, `g_utf8_strup`, `g_utf8_next_char` as the bytes of
-- the first character, `g_ascii_strdown` and `g_ascii_isupper`.
pub record Cases : Type 0 where
  pub utf8_strdown : Bytes → Bytes
  pub utf8_strup : Bytes → Bytes
  pub first_char : Bytes → ℕ
  pub ascii_strdown : Bytes → Bytes
  pub ascii_isupper : ℕ → Bool

-- One file of a dictionary: `Lookup` with its index and suggested index, `GetWordPrev` with `pidx`,
-- the words, and whether `stardict_casecmp` gives 0.
pub record Speller : Type 0 where
  pub wordcount : ℕ
  pub lookup : Bytes → Bool × ℤ × ℤ
  pub get_word_prev : ℤ → Bool × ℤ
  pub get_word : ℤ → Option Bytes
  pub casecmp : Bytes → Bytes → Bool

-- `iIndex` when `bFound` is set, and `idx_suggest`.
abbrev pub Search : Type 0
Search = Option ℤ × ℤ

abbrev pub is_vowel : ℕ → Bool
is_vowel c =
    c == b'a'
    || c == b'e'
    || c == b'i'
    || c == b'o'
    || c == b'u'
    || c == b'A'
    || c == b'E'
    || c == b'I'
    || c == b'O'
    || c == b'U'

unfoldable pub is_pure_english : Bytes → Bool
is_pure_english [] = true
is_pure_english (c ∷ s) = ltb c 128 && is_pure_english s

-- `!strncmp(&sWord[iWordLen-k], ending, k)`
abbrev pub ends_in : Bytes → Bytes → Bool
ends_in s ending = eqb (drop (length s - length ending) s) ending

-- The byte that stands `k` places before the end, and what a test on it says.
abbrev pub from_end : Bytes → ℕ → (ℕ → Bool) → Bool
from_end s k test = elim (get_elem? s (length s - k)) [ none ↦ false | some c ↦ test c ]

module _ (c : Cases) (d : Speller) (s_word : Bytes) where
  -- `if (Lookup(…)) bFound = true`, unless it is set already.
  unfoldable pub try : Bytes → Search → Search
  try word (some i, g) = (some i, g)
  try word (none, g) = let r = d.lookup word in if r.0 then (some r.1, r.2) else (none, r.2)

  unfoldable pub try_other : Bytes → Bytes → Search → Search
  try_other casestr word s = if eqb casestr word then s else try casestr s

  -- The word without its ending, and in small letters if it was in capitals or begins with one.
  unfoldable pub try_form : Bool → Bytes → Search → Search
  try_form isupcase word s =
      let found = try word s in
      if isupcase || elim s_word [ [] ↦ false | a ∷ rest ↦ c.ascii_isupper a ]
      then try_other (c.ascii_strdown word) word found
      else found

  abbrev pub cut : ℕ → Bytes
  cut k = take (length s_word - k) s_word

  -- The ending of `k` bytes stands behind a vowel and a consonant that is written twice.
  abbrev pub is_doubled : ℕ → Bool
  is_doubled k =
      ltb (k + 3) (length s_word)
      && from_end s_word (k + 1) (λ a. from_end s_word (k + 2) (λ b. a == b && not (is_vowel b)))
      && from_end s_word (k + 3) is_vowel

  unfoldable pub try_cut : Bool → ℕ → Search → Search
  try_cut isupcase k s =
      let once = try_form isupcase (cut (k + 1)) s in
      try_form isupcase (cut k) (if is_doubled k then once else s)

  -- `upper` or `lower` at the end, in a word of more than `min` bytes.
  unfoldable pub ending : ℕ → Bytes → Bytes → (Bool → Search → Search) → Search → Search
  ending min upper lower act s =
      let isupcase = ends_in s_word upper in
      let acted = act isupcase s in
      if ltb min (length s_word) && (isupcase || ends_in s_word lower) then acted else s

  unfoldable pub cut_s_or_d : Search → Search
  cut_s_or_d s =
      let isupcase = ends_in s_word (codes "S") || ends_in s_word (codes "ED") in
      let formed = try_form isupcase (cut 1) s in
      if ltb 1 (length s_word)
        && (isupcase || ends_in s_word (codes "s") || ends_in s_word (codes "ed"))
      then formed
      else s

  unfoldable pub cut_ly : Search → Search
  cut_ly = ending 2 (codes "LY") (codes "ly") (λ u s. try_cut u 2 s)

  unfoldable pub cut_ing : Search → Search
  cut_ing =
      ending 3 (codes "ING") (codes "ing")
        (λ u s. try_form u (cut 3 ++ (if u then codes "E" else codes "e")) (try_cut u 3 s))

  -- The letters behind which "es" is an ending.
  abbrev pub before_es : ℕ → ℕ → ℕ → ℕ → ℕ → ℕ → Bool
  before_es s x o h ch sh = from_end s_word 3 (λ a.
      a == s
      || a == x
      || a == o
      || (ltb 4 (length s_word) && a == h && from_end s_word 4 (λ b. b == ch || b == sh)))

  unfoldable pub cut_es : Search → Search
  cut_es s =
      let isupcase = ends_in s_word (codes "ES") && before_es b'S' b'X' b'O' b'H' b'C' b'S' in
      let formed = try_form isupcase (cut 2) s in
      if ltb 3 (length s_word)
        && (isupcase || (ends_in s_word (codes "es") && before_es b's' b'x' b'o' b'h' b'c' b's'))
      then formed
      else s

  unfoldable pub cut_ed : Search → Search
  cut_ed = ending 3 (codes "ED") (codes "ed") (λ u s. try_cut u 2 s)

  abbrev pub add_y : Bool → Search → Search
  add_y u s = try_form u (cut 3 ++ (if u then codes "Y" else codes "y")) s

  unfoldable pub cut_ied : Search → Search
  cut_ied = ending 3 (codes "IED") (codes "ied") add_y

  unfoldable pub cut_ies : Search → Search
  cut_ies = ending 3 (codes "IES") (codes "ies") add_y

  unfoldable pub cut_er : Search → Search
  cut_er = ending 2 (codes "ER") (codes "er") (λ u s. try_form u (cut 2) s)

  unfoldable pub cut_est : Search → Search
  cut_est = ending 3 (codes "EST") (codes "est") (λ u s. try_form u (cut 3) s)

  unfoldable pub other_forms : Search → Search
  other_forms s =
      let formed =
        cut_est (cut_er (cut_ies (cut_ied (cut_ed (cut_es (cut_ing (cut_ly (cut_s_or_d s)))))))) in
      if is_pure_english s_word then formed else s

  -- Small letters, capitals, and a capital before small letters.
  unfoldable pub other_cases : Search → Search
  other_cases s =
      let first = c.first_char s_word in
      let title = c.utf8_strup (take first s_word) ++ c.utf8_strdown (drop first s_word) in
      try_other title s_word
        (try_other (c.utf8_strup s_word) s_word (try_other (c.utf8_strdown s_word) s_word s))

  -- The loop back over the words that differ in case only.
  unfoldable pub walk_same : ℕ → Bool → ℤ → Option (Bool × ℤ)
  walk_same zero found idx = none
  walk_same (suc left) found idx =
      let r = d.get_word_prev idx in
      elim r.0 [
        | false ↦ some (found, idx)
        | true ↦ do
          cword ← d.get_word r.1
          elim (d.casecmp cword s_word) [
            | true ↦ walk_same left true r.1
            | false ↦ some (found, idx)
          ]
      ]

  -- The word at the index itself, if the loop has found none.
  unfoldable pub same_here : Bool × ℤ → Option (Option ℤ)
  same_here (true, idx) = some (some idx)
  same_here (false, negsuc n) =
      if n == 99
      then some none
      else (d.get_word (negsuc n) >>= λ w.
          some (if d.casecmp w s_word then some (negsuc n) else none))
  same_here (false, pos i) =
      d.get_word (pos i) >>= λ w. some (if d.casecmp w s_word then some (pos i) else none)

  unfoldable pub near : ℤ → Search → Option Search
  near idx (some i, g) = some (some i, g)
  near idx (none, g) = do
    walked ← walk_same (d.wordcount + 2) false idx
    hit ← same_here walked
    some (hit, g)

  -- From the index and the suggested index of a lookup that failed.
  unfoldable pub lookup_similar_word : ℤ → ℤ → Option Search
  lookup_similar_word idx idx_suggest = do
    s ← near idx (other_cases (none, idx_suggest))
    some (other_forms s)

  unfoldable pub simple_lookup_word : Option Search
  simple_lookup_word =
      let r = d.lookup s_word in
      let similar = lookup_similar_word r.1 r.2 in if r.0 then some (some r.1, r.2) else similar

  -- `LookupSynonymSimilarWord`, in a dictionary with synonyms; `left_over` is what `iIndex_suggest` holds
  -- before it is set.
  unfoldable pub lookup_synonym_similar_word : ℤ → ℤ → ℤ → Option Search
  lookup_synonym_similar_word left_over idx synidx_suggest = do
    s ← near idx (other_cases (none, left_over))
    some (elim s.0 [ none ↦ (none, synidx_suggest) | some i ↦ s ])
