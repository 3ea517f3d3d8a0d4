-- ===== src/Libs.antt =====
-- `Libs` of source_codes/stardictd/src/lib/stddict.cpp: the words that the chosen dictionaries stand
-- at, and which of them is shown. A dictionary (`oLib[i]`) is what `Libs` asks of it: its counts and
-- its words; reading a word has no effect but the page or the collation that is in memory, which is
-- left out. `none` is a word that cannot be read, or a dictionary that is not there.
pub mod Least
pub mod Suggested
pub mod Mask
pub mod Next
pub mod Previous
pub mod Bound
pub mod Similar
use stardictd.Base.{
  ℕ, Bool, true, false, not, List, [], ◌∷◌, Option, none, some, ◌>>=◌, Bytes, ltb, ◌==◌,
  if◌then◌else◌, get_elem?,
}
use stardictd.Base.Int.{ℤ, pos, negsuc}
use stardictd.Compare.{Ordering, Comparison}

pub record CurrentIndex : Type 0 where
  pub idx : ℤ
  pub idx_suggest : ℤ
  pub synidx : ℤ
  pub synidx_suggest : ℤ

pub data InstantDictType : Type 0 where
  unknown_dict local_dict virtual_dict net_dict : InstantDictType

pub record InstantDictIndex : Type 0 where
  pub type_of : InstantDictType
  pub index : ℕ

-- `narticles`, `nsynarticles`, `poGetWord` and `poGetSynonymWord` of one dictionary.
pub record Library : Type 0 where
  pub narticles : ℕ
  pub nsynarticles : ℕ
  pub get_word : ℤ → Option Bytes
  pub get_synonym_word : ℤ → Option Bytes

-- `dictmask[iLib]` with `iCurrent[iLib]`
abbrev pub Place : Type 0
Place = InstantDictIndex × CurrentIndex

-- The tests before a word is read: the index is not a mark, and inside the file.
abbrev pub is_index : ℕ → ℤ → Bool
is_index count (pos i) = ltb i count
is_index count (negsuc n) = false

abbrev pub is_unset : ℤ → Bool
is_unset (pos i) = false
is_unset (negsuc n) = n == 0

-- What one round of a loop reads: nothing (`continue`), or the word at the place's index, if the
-- dictionary is local and `wanted` says so.
unfoldable pub candidate :
    (Library → ℤ → Bool)
    → (Library → ℤ → Option Bytes)
    → (CurrentIndex → ℤ)
    → List Library
    → Place
    → Option (Option Bytes)
candidate wanted word_at index_of oLib p = elim p.0.type_of [
  | local_dict ↦ do
    lib ← get_elem? oLib p.0.index
    elim (wanted lib (index_of p.1)) [
      | true ↦ do word ← word_at lib (index_of p.1); some (some word)
      | false ↦ some none
    ]
  | _ ↦ some none
]

-- The rounds of the first loop of `poGetCurrentWord`, and of the second, over the synonyms.
unfoldable pub current_word_at : List Library → Place → Option (Option Bytes)
unfolding candidate
current_word_at =
    candidate (λ lib i. is_index lib.narticles i) (λ lib i. lib.get_word i) (λ c. c.idx)

unfoldable pub current_synonym_at : List Library → Place → Option (Option Bytes)
unfolding candidate
current_synonym_at =
    candidate (λ lib i. is_index lib.nsynarticles i) (λ lib i. lib.get_synonym_word i)
      (λ c. c.synidx)

-- The rounds of the two loops of `GetSuggestWord`.
unfoldable pub suggest_word_at : List Library → Place → Option (Option Bytes)
unfolding candidate
suggest_word_at = candidate (λ lib i. true) (λ lib i. lib.get_word i) (λ c. c.idx_suggest)

unfoldable pub suggest_synonym_at : List Library → Place → Option (Option Bytes)
unfolding candidate
suggest_synonym_at =
    candidate (λ lib i. not (is_unset i)) (λ lib i. lib.get_synonym_word i) (λ c. c.synidx_suggest)

-- A loop over the places: each word that is read is weighed against what is held.
unfoldable pub weigh_all :
    {A : Type 0}
    → (Option A → Bytes → Option A)
    → (Place → Option (Option Bytes))
    → List Place
    → Option A
    → Option (Option A)
weigh_all weigh read [] held = some held
weigh_all weigh read (p ∷ ps) held = do
  c ← read p
  elim c [
    | none ↦ weigh_all weigh read ps held
    | some word ↦ weigh_all weigh read ps (weigh held word)
  ]

-- One word against `poCurrentWord`, whose null pointer is `none`.
unfoldable pub pick : Comparison → Option Bytes → Bytes → Option Bytes
pick collate none word = some word
pick collate (some current) word = elim (collate current word) [
  | Ordering.gt ↦ some word
  | _ ↦ some current
]

unfoldable pub po_get_current_word : Comparison → List Library → List Place → Option (Option Bytes)
unfolding weigh_all
po_get_current_word collate oLib ps = do
  current ← weigh_all (pick collate) (current_word_at oLib) ps none
  weigh_all (pick collate) (current_synonym_at oLib) ps current

module _ (collate : Comparison) (prefix_match : Bytes → Bytes → ℕ) (str : Bytes) where
  -- One word against `best` and `poCurrentWord` of `GetSuggestWord`.
  unfoldable pub prefer : Option (ℕ × Bytes) → Bytes → Option (ℕ × Bytes)
  prefer none word = some (prefix_match str word, word)
  prefer (some held) word =
      let back = prefix_match str word in
      if ltb (held.0) back
      then some (back, word)
      else if back == held.0
      then elim (collate (held.1) word) [ Ordering.gt ↦ some (held.0, word) | _ ↦ some held ]
      else some held

  abbrev pub word_held : Option (ℕ × Bytes) → Option Bytes
  word_held none = none
  word_held (some held) = some (held.1)

  unfoldable pub get_suggest_word : List Library → List Place → Option (Option Bytes)
  unfolding weigh_all
  get_suggest_word oLib ps = do
    held ← weigh_all prefer (suggest_word_at oLib) ps none
    all ← weigh_all prefer (suggest_synonym_at oLib) ps held
    some (word_held all)
