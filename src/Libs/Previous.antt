-- ===== src/Libs/Previous.antt =====
-- The walk backwards over several dictionaries (`Libs::poGetPreWord` of
-- source_codes/stardictd/src/lib/stddict.cpp), and the list of words that is made by it
-- (`StardictdMain::previous` of source_codes/stardictd/src/stardictdmain.cpp). The last `GetWordPrev`
-- reads the word that it goes to last, so the page of `poCurrentWord` is in memory when it returns.
pub mod Before
pub mod Greatest
use stardictd.Base.{
  ℕ, zero, suc, ◌-◌, Bool, true, false, not, ◌&&◌, List, [], ◌∷◌, Option, none, some, ◌>>=◌, Bytes,
  ltb, ◌==◌, if◌then◌else◌, get_elem?,
}
use stardictd.Base.Int.{ℤ, pos, negsuc}
use stardictd.Compare.{Ordering, Comparison}
use stardictd.Libs.{CurrentIndex, Place, local_dict, is_unset}
use stardictd.Libs.Next.{
  Stepper, Held, at_local, seek_word, seek_synonym, read_loop, more_words, each_place,
  advance_others, move_at,
}

-- `x < 0` in place of `x > 0`.
abbrev pub reversed : Ordering → Ordering
reversed Ordering.lt = Ordering.gt
reversed Ordering.eq = Ordering.eq
reversed Ordering.gt = Ordering.lt

abbrev pub backwards : Comparison → Comparison
backwards collate a b = reversed (collate a b)

-- The tests before `GetWordPrev`: `INVALID_INDEX`, or an index behind the first word.
abbrev pub has_previous : ℕ → ℤ → Bool
has_previous count (pos i) = ltb 0 i && ltb i count
has_previous count (negsuc n) = n == 99

-- What one round of a loop reads: the word before the place's index, if there is one.
unfoldable pub previous_at :
    (Stepper → ℤ → Bool)
    → (Stepper → ℤ → Bool × ℤ)
    → (Stepper → ℤ → Option Bytes)
    → (CurrentIndex → ℤ)
    → List Stepper
    → Place
    → Option (Option Bytes)
previous_at wanted get_word_prev word_at index_of oLib p = elim p.0.type_of [
  | local_dict ↦ do
    d ← get_elem? oLib p.0.index
    elim (wanted d (index_of p.1) && (get_word_prev d (index_of p.1)).0) [
      | true ↦ do word ← word_at d (get_word_prev d (index_of p.1)).1; some (some word)
      | false ↦ some none
    ]
  | _ ↦ some none
]

unfoldable pub previous_word_at : List Stepper → Place → Option (Option Bytes)
unfolding previous_at
previous_word_at =
    previous_at (λ d i. has_previous d.library.narticles i) (λ d i. d.word_prev i)
      (λ d i. d.library.get_word i) (λ c. c.idx)

unfoldable pub previous_synonym_at : List Stepper → Place → Option (Option Bytes)
unfolding previous_at
previous_synonym_at =
    previous_at (λ d i. not (is_unset i) && has_previous d.library.nsynarticles i)
      (λ d i. d.synonym_prev i) (λ d i. d.library.get_synonym_word i) (λ c. c.synidx)

module _ (oLib : List Stepper) where
  -- `GetWordPrev`, and the place takes `pidx`.
  unfoldable pub back_word : Place → Option Place
  unfolding at_local
  back_word = at_local oLib (λ d c. record c { idx = (d.word_prev c.idx).1 })

  unfoldable pub back_synonym : Place → Option Place
  unfolding at_local
  back_synonym = at_local oLib (λ d c. record c { synidx = (d.synonym_prev c.synidx).1 })

  unfoldable pub step_back : List Place → Bytes → ℕ → Bool → Option (List Place × Option Bytes)
  step_back ps word k is_lib = do
    r1 ← each_place (advance_others ps (previous_word_at oLib) back_word word is_lib k) 0 ps true
    r2 ←
        each_place (advance_others ps (previous_synonym_at oLib) back_synonym word (not is_lib) k) 0
          r1.0 r1.1
    r3 ← each_place (move_at (if is_lib then back_word else back_synonym) k) 0 r2.0 r2.1
    some (r3.0, some word)

  unfoldable pub finish_back : List Place → Held → Option (List Place × Option Bytes)
  finish_back ps none = some (ps, none)
  finish_back ps (some h) = step_back ps h.0 h.1 h.2

  unfoldable pub po_get_pre_word :
      Comparison → Option Bytes → List Place → Option (List Place × Option Bytes)
  po_get_pre_word collate s_word ps = do
    r1 ←
        read_loop ps (backwards collate) (seek_word oLib s_word) (previous_word_at oLib) true 0 ps
          none
    r2 ←
        read_loop ps (backwards collate) (seek_synonym oLib s_word) (previous_synonym_at oLib) false
          0 r1.0 r1.1
    finish_back r2.0 r2.1

  -- `StardictdMain::previous`: the words that are sent before the empty text.
  unfoldable pub previous_words : Comparison → Bytes → ℕ → List Place → Option (List Bytes)
  previous_words collate s_word maxwordcount ps = do
    r ← po_get_pre_word collate (some s_word) ps
    elim r.1 [
      | none ↦ some []
      | some word ↦ do
        words ← more_words (po_get_pre_word collate none) (maxwordcount - 1) r.0
        some (word ∷ words)
    ]
