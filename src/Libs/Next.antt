-- ===== src/Libs/Next.antt =====
-- The walk over several dictionaries (`Libs::poGetNextWord` of
-- source_codes/stardictd/src/lib/stddict.cpp), and the lists of words that are made by it
-- (source_codes/stardictd/src/stardictdmain.cpp). `poCurrentWord` points into the page of the file that
-- it was read from: its bytes are kept with the number of its place, and where the source would read
-- it behind another access to that file the result is `none`.
pub mod Plain
pub mod Once
pub mod Advance
pub mod Found
pub mod Current
use stardictd.Base.{
  ℕ, zero, suc, ◌-◌, Bool, true, false, not, ◌&&◌, List, [], ◌∷◌, ◌++◌, map, Option, none, some,
  ◌>>=◌, Bytes, eqb, ◌==◌, if◌then◌else◌, get_elem?, set,
}
use stardictd.Base.Int.{ℤ}
use stardictd.Compare.{Ordering, Comparison}
use stardictd.Libs.{
  CurrentIndex, Library, Place, local_dict, current_word_at, current_synonym_at,
  po_get_current_word,
}

-- A dictionary with its searches and its steps: `Lookup` and `LookupSynonym` give the index and the
-- suggested index, `GetWordNext` moves an index of a word or of a synonym, `GetWordPrev` gives its
-- result and `pidx`.
pub record Stepper : Type 0 where
  pub library : Library
  pub lookup : Bytes → ℤ × ℤ
  pub lookup_synonym : Bytes → ℤ × ℤ
  pub word_next : ℤ → ℤ
  pub synonym_next : ℤ → ℤ
  pub word_prev : ℤ → Bool × ℤ
  pub synonym_prev : ℤ → Bool × ℤ

abbrev pub libraries : List Stepper → List Library
libraries oLib = map (λ d. d.library) oLib

-- `poCurrentWord` with `iCurrentLib` and `isLib`.
abbrev pub Held : Type 0
Held = Option (Bytes × ℕ × Bool)

-- One word against `poCurrentWord`, with where it stands.
unfoldable pub hold : Comparison → Held → Option Bytes → ℕ → Bool → Held
hold collate held none i is_lib = held
hold collate none (some word) i is_lib = some (word, i, is_lib)
hold collate (some h) (some word) i is_lib = elim (collate h.0 word) [
  | Ordering.gt ↦ some (word, i, is_lib)
  | _ ↦ some h
]

abbrev is_local : Place → Bool
is_local p = elim p.0.type_of [ local_dict ↦ true | _ ↦ false ]

-- Two places of the mask are of one dictionary in this process: `dictmask[iLib].index` is the same.
-- `poCurrentWord` points into the page of its file, so it may not be read any more when another word
-- of that file has been asked for.
unfoldable pub same_file : List Place → ℕ → ℕ → Bool
same_file mask k i = elim (get_elem? mask k) [
  | none ↦ false
  | some q ↦ elim (get_elem? mask i) [
    | none ↦ false
    | some p ↦ is_local q && is_local p && q.0.index == p.0.index
  ]
]

abbrev same_kind : Bool → Bool → Bool
same_kind true b = b
same_kind false b = not b

-- The place with number `i` asks the file that the word points into.
abbrev pub overwrites : List Place → Held → ℕ → Bool → Bool
overwrites mask none i is_lib = false
overwrites mask (some h) i is_lib = same_kind h.2 is_lib && same_file mask h.1 i

-- The first two loops: over the words, and over the synonyms. `none` is also a comparison with a word
-- whose page may be gone.
unfoldable pub read_loop :
    List Place
    → Comparison
    → (Place → Option Place)
    → (Place → Option (Option Bytes))
    → Bool
    → ℕ
    → List Place
    → Held
    → Option (List Place × Held)
read_loop mask collate seek read is_lib i [] held = some ([], held)
read_loop mask collate seek read is_lib i (p ∷ ps) held = do
  p' ← seek p
  c ← read p'
  held' ← elim (overwrites mask held i is_lib) [
    | true ↦ none
    | false ↦ some (hold collate held c i is_lib)
  ]
  r ← read_loop mask collate seek read is_lib (suc i) ps held'
  some (p' ∷ r.0, r.1)

-- A loop that changes the places one by one; the truth value says whether `poCurrentWord` can still be
-- read.
unfoldable pub each_place :
    (ℕ → Place → Bool → Option (Place × Bool)) → ℕ → List Place → Bool → Option (List Place × Bool)
each_place f i [] fresh = some ([], fresh)
each_place f i (p ∷ ps) fresh = do
  r ← f i p fresh
  rest ← each_place f (suc i) ps r.1
  some (r.0 ∷ rest.0, rest.1)

-- The move of a place whose word is `poCurrentWord`.
unfoldable pub advance :
    (Place → Option (Option Bytes)) → (Place → Option Place) → Bytes → Place → Option Place
advance read move word p = do
  c ← read p
  elim c [ none ↦ some p | some w ↦ (let moved = move p in if eqb word w then moved else some p) ]

-- The third and the fourth loop leave the place of `poCurrentWord` for the end. To compare with
-- `poCurrentWord` behind a change of its page is left undefined.
unfoldable pub advance_others :
    List Place
    → (Place → Option (Option Bytes))
    → (Place → Option Place)
    → Bytes
    → Bool
    → ℕ
    → ℕ
    → Place
    → Bool
    → Option (Place × Bool)
advance_others mask read move word is_here k i p fresh =
    let compared = advance read move word p >>= λ p'. some (p', true) in
    let skipped = read p >>= λ c. elim c [ none ↦ some (p, fresh) | some w ↦ none ] in
    if is_here && i == k
    then some (p, fresh)
    else (if fresh && not (is_here && same_file mask k i) then compared else skipped)

-- The move of the place of `poCurrentWord`, which changes its page.
unfoldable pub move_at : (Place → Option Place) → ℕ → ℕ → Place → Bool → Option (Place × Bool)
move_at move k i p fresh =
    let moved = move p >>= λ p'. some (p', false) in if i == k then moved else some (p, fresh)

-- `while (iWordCount < maxwordcount && (word = step(…)))`, `left` words before the bound.
unfoldable pub more_words :
    (List Place → Option (List Place × Option Bytes)) → ℕ → List Place → Option (List Bytes)
more_words step zero ps = some []
more_words step (suc left) ps = do
  r ← step ps
  elim r.1 [ none ↦ some [] | some word ↦ do words ← more_words step left r.0; some (word ∷ words) ]

module _ (oLib : List Stepper) where
  -- A change of a place that is of a dictionary in this process.
  unfoldable pub at_local : (Stepper → CurrentIndex → CurrentIndex) → Place → Option Place
  at_local f p = elim p.0.type_of [
    | local_dict ↦ do d ← get_elem? oLib p.0.index; some (p.0, f d p.1)
    | _ ↦ some p
  ]

  -- `Lookup`, when a word is given.
  unfoldable pub seek_word : Option Bytes → Place → Option Place
  seek_word none p = some p
  seek_word (some s_word) p =
      at_local (λ d c. let r = d.lookup s_word in record c { idx = r.0; idx_suggest = r.1 }) p

  unfoldable pub seek_synonym : Option Bytes → Place → Option Place
  seek_synonym none p = some p
  seek_synonym (some s_word) p =
      at_local
        (λ d c. let r = d.lookup_synonym s_word in record c { synidx = r.0; synidx_suggest = r.1 })
        p

  unfoldable pub move_word : Place → Option Place
  unfolding at_local
  move_word = at_local (λ d c. record c { idx = d.word_next c.idx })

  unfoldable pub move_synonym : Place → Option Place
  unfolding at_local
  move_synonym = at_local (λ d c. record c { synidx = d.synonym_next c.synidx })

  unfoldable pub step_all :
      Comparison → List Place → Bytes → ℕ → Bool → Option (List Place × Option Bytes)
  step_all collate ps word k is_lib = do
    r1 ←
        each_place (advance_others ps (current_word_at (libraries oLib)) move_word word is_lib k) 0
          ps true
    r2 ←
        each_place
          (advance_others ps (current_synonym_at (libraries oLib)) move_synonym word (not is_lib) k)
          0 r1.0 r1.1
    r3 ← each_place (move_at (if is_lib then move_word else move_synonym) k) 0 r2.0 r2.1
    w ← po_get_current_word collate (libraries oLib) r3.0
    some (r3.0, w)

  unfoldable pub finish : Comparison → List Place → Held → Option (List Place × Option Bytes)
  finish collate ps none = some (ps, none)
  finish collate ps (some h) = step_all collate ps h.0 h.1 h.2

  unfoldable pub po_get_next_word :
      Comparison → Option Bytes → List Place → Option (List Place × Option Bytes)
  po_get_next_word collate s_word ps = do
    r1 ← read_loop ps collate (seek_word s_word) (current_word_at (libraries oLib)) true 0 ps none
    r2 ←
        read_loop ps collate (seek_synonym s_word) (current_synonym_at (libraries oLib)) false 0
          r1.0 r1.1
    finish collate r2.0 r2.1

  -- `StardictdMain::next`: the words that are sent before the empty text.
  unfoldable pub next_words : Comparison → Bytes → ℕ → List Place → Option (List Bytes)
  next_words collate s_word maxwordcount ps = do
    r ← po_get_next_word collate (some s_word) ps
    elim r.1 [
      | none ↦ some []
      | some word ↦ do
        words ← more_words (po_get_next_word collate none) (maxwordcount - 1) r.0
        some (word ∷ words)
    ]

  -- `StardictdMain::ListWords`: the current word and those behind it.
  unfoldable pub list_words : Comparison → ℕ → List Place → Option (List Bytes)
  list_words collate maxwordcount ps = do
    current ← po_get_current_word collate (libraries oLib) ps
    elim current [
      | none ↦ some []
      | some word ↦ do
        words ← more_words (po_get_next_word collate none) (maxwordcount - 1) ps
        some (word ∷ words)
    ]

-- What is sent for a list of words: each with its terminator, and an empty text behind them.
abbrev pub list_buffers : List Bytes → List Bytes
list_buffers [] = (0 ∷ []) ∷ []
list_buffers (word ∷ words) = (word ++ 0 ∷ []) ∷ list_buffers words
