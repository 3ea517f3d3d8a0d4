-- ===== src/Dict.antt =====
-- `Dict` of source_codes/stardictd/src/lib/stddict.cpp: the walks over the words of one dictionary.
-- The words of an index or synonym file (`is_file`, which `isidx` selects) are read by `get_word`,
-- which may change the file's state `S`: a page is loaded, or a collation. It is `none` outside the
-- file. `g_pattern_match_string` and `g_regex_match` are the parameter `matches`.
pub mod Reads
pub mod Walk
pub mod Count
pub mod Rules
pub mod Files
use stardictd.Base.{
  ℕ, zero, suc, ◌+◌, ◌-◌, Bool, true, false, List, [], ◌∷◌, ◌++◌, Option, none, some, ◌>>=◌, Bytes,
  ◌==◌, if◌then◌else◌,
}
use stardictd.Base.Int.{ℤ, pos, negsuc}
use stardictd.Compare.{Ordering, strcmp}
use stardictd.Lookup.{LookupResult, unset_index, invalid_index}

-- `wordcount-1` as a `glong`.
abbrev pub last_index : ℕ → ℤ
last_index zero = negsuc 0
last_index (suc n) = pos n

-- `iIndexCount>0`
abbrev pub any_index : List ℤ → Bool
any_index [] = false
any_index (i ∷ is) = true

module _ {S : Type 0} (get_word : S → ℕ → Option (S × Bytes)) where
  -- The loop of `GetWordPrev`: `found` and `pidx` at its end.
  unfoldable pub walk_back : Bytes → S → ℕ → Option (S × Bool × ℕ)
  walk_back word s zero = some (s, false, 0)
  walk_back word s (suc p) = do
    read ← get_word s p
    elim (strcmp read.1 word) [
      | Ordering.eq ↦ walk_back word (read.0) p
      | _ ↦ some (read.0, true, suc p)
    ]

  -- `GetWordPrev`: its result and `pidx`.
  unfoldable pub get_word_prev : ℕ → S → ℤ → Option (S × Bool × ℤ)
  unfolding walk_back
  get_word_prev wordcount s (negsuc n) =
      if n == 99 then some (s, true, last_index wordcount) else none
  get_word_prev wordcount s (pos idx) = do
    read ← get_word s idx
    walked ← walk_back (read.1) (read.0) idx
    some (walked.0, walked.1, (if walked.1 then pos (walked.2 - 1) else pos (walked.2)))

  -- The loop of `GetWordNext`; the first number is `wordcount-1-idx`.
  unfoldable pub walk_on : Bytes → ℕ → S → ℕ → Option (S × Bool × ℕ)
  walk_on word zero s idx = some (s, false, idx)
  walk_on word (suc left) s idx = do
    read ← get_word s (idx + 1)
    elim (strcmp read.1 word) [
      | Ordering.eq ↦ walk_on word left (read.0) (idx + 1)
      | _ ↦ some (read.0, true, idx)
    ]

  -- `GetWordNext`: the new `idx`.
  unfoldable pub get_word_next : ℕ → S → ℕ → Option (S × ℤ)
  unfolding walk_on
  get_word_next wordcount s idx = do
    read ← get_word s idx
    walked ← walk_on (read.1) (wordcount - 1 - idx) (read.0) idx
    some (walked.0, (if walked.1 then pos (walked.2 + 1) else invalid_index))

  -- The two loops of `GetOrigWordCount`, with `count` and the index.
  unfoldable pub count_back : Bytes → S → ℕ → ℕ → Option (S × ℕ × ℕ)
  count_back word s zero count = some (s, 0, count)
  count_back word s (suc idx1) count = do
    read ← get_word s idx1
    elim (strcmp read.1 word) [
      | Ordering.eq ↦ count_back word (read.0) idx1 (count + 1)
      | _ ↦ some (read.0, suc idx1, count)
    ]

  unfoldable pub count_on : Bytes → ℕ → S → ℕ → ℕ → Option (S × ℕ)
  count_on word zero s idx2 count = some (s, count)
  count_on word (suc left) s idx2 count = do
    read ← get_word s (idx2 + 1)
    elim (strcmp read.1 word) [
      | Ordering.eq ↦ count_on word left (read.0) (idx2 + 1) (count + 1)
      | _ ↦ some (read.0, count)
    ]

  -- `GetOrigWordCount`: the first index of the word, and how often it occurs.
  unfoldable pub get_orig_word_count : ℕ → S → ℕ → Option (S × ℕ × ℕ)
  unfolding count_back count_on
  get_orig_word_count wordcount s idx = do
    read ← get_word s idx
    back ← count_back (read.1) (read.0) idx 1
    on ← count_on (read.1) (wordcount - 1 - idx) (back.0) idx (back.2)
    some (on.0, back.1, on.1)

  -- The loop of `LookupWithRule`: `left` words from `i` on, and `room` places in `aIndex`.
  unfoldable pub collect : (Bytes → Bool) → ℕ → ℕ → S → ℕ → Option (S × List ℤ)
  collect matches zero room s i = some (s, [])
  collect matches (suc left) zero s i = some (s, [])
  collect matches (suc left) (suc room) s i = do
    read ← get_word s i
    elim (matches (read.1)) [
      | true ↦ do rest ← collect matches left room (read.0) (i + 1); some (rest.0, pos i ∷ rest.1)
      | false ↦ collect matches left (suc room) (read.0) (i + 1)
    ]

  -- `LookupWithRule`: whether a word matches, and `aIndex` with its end mark.
  unfoldable pub lookup_with_rule : (Bytes → Bool) → ℕ → ℕ → S → Option (S × Bool × List ℤ)
  unfolding collect
  lookup_with_rule matches narticles buff_len s = do
    found ← collect matches narticles (buff_len - 1) s 0
    some (found.0, any_index (found.1), found.1 ++ (unset_index ∷ []))

  -- `LookupWithRegex` is written like `LookupWithRule`, with another test.
  unfoldable pub lookup_with_regex : (Bytes → Bool) → ℕ → ℕ → S → Option (S × Bool × List ℤ)
  lookup_with_regex g_regex_match narticles buff_len s =
      lookup_with_rule g_regex_match narticles buff_len s

-- A dictionary's synonym file is a null pointer when it has none.
module _ {S : Type 0} where
  -- `nsynarticles`, over the file's `wordcount`.
  abbrev pub nsynarticles : Option (S × ℕ) → ℕ
  nsynarticles none = 0
  nsynarticles (some f) = f.1

  -- `LookupSynonym`
  unfoldable pub lookup_synonym :
      (S → Bytes → Option (S × LookupResult))
      → Option (S × ℕ)
      → Bytes
      → Option (Option (S × ℕ) × LookupResult)
  lookup_synonym lookup none str =
      some (none, record { found = false; idx = unset_index; idx_suggest = unset_index })
  lookup_synonym lookup (some f) str = do r ← lookup (f.0) str; some (some (r.0, f.1), r.1)

  -- `LookupWithRuleSynonym`; without a file `aIndex` is not written.
  unfoldable pub lookup_with_rule_synonym :
      (S → ℕ → Option (S × Bytes))
      → (Bytes → Bool)
      → Option (S × ℕ)
      → ℕ
      → Option (Option (S × ℕ) × Bool × List ℤ)
  unfolding lookup_with_rule
  lookup_with_rule_synonym get_word matches none buff_len = some (none, false, [])
  lookup_with_rule_synonym get_word matches (some f) buff_len = do
    r ← lookup_with_rule get_word matches (nsynarticles (some f)) buff_len (f.0)
    some (some (r.0, f.1), r.1, r.2)

  unfoldable pub lookup_with_regex_synonym :
      (S → ℕ → Option (S × Bytes))
      → (Bytes → Bool)
      → Option (S × ℕ)
      → ℕ
      → Option (Option (S × ℕ) × Bool × List ℤ)
  lookup_with_regex_synonym get_word g_regex_match syn_file buff_len =
      lookup_with_rule_synonym get_word g_regex_match syn_file buff_len
