-- ===== src/Libs/Previous/Before.antt =====
-- A step backwards, from the word that its first two loops find (`Libs::poGetPreWord` of
-- source_codes/stardictd/src/lib/stddict.cpp).
use stardictd.Base.{List, ◌≡◌, ◌∙◌, refl, Option, none, some, ◌>>=◌, Bytes, eqb_iff, arith}
use stardictd.Compare.{Comparison}
use stardictd.Libs.{Place, weigh_all, pick}
use stardictd.Libs.Next.{Stepper, at_local, seek_word, seek_synonym, advance}
use stardictd.Libs.Next.Advance.{advanced, WordLast, SynonymLast, for_each-advanced}
use stardictd.Libs.Next.Plain.{for_each}
use stardictd.Libs.Next.Once.{IsOnce, loops-for_each}
use stardictd.Libs.Next.Found.{Ends, read_loops}
use stardictd.Libs.Previous.{
  backwards, previous_at, previous_word_at, previous_synonym_at, back_word, back_synonym, step_back,
  finish_back, po_get_pre_word,
}

module _ (oLib : List Stepper) (collate : Comparison) where
  abbrev moved : Bytes → Place → Option Place
  moved word p =
      advanced (previous_word_at oLib) (previous_synonym_at oLib) (back_word oLib)
        (back_synonym oLib) word p

  word_last :
      (word : Bytes)
      → WordLast
          (previous_word_at oLib)
          (previous_synonym_at oLib)
          (back_word oLib)
          (back_synonym oLib)
          word
  unfolding advance previous_word_at previous_synonym_at previous_at back_word back_synonym at_local
  word_last word p e = ground (arith, e, eqb_iff word word)

  synonym_last :
      (word : Bytes)
      → SynonymLast
          (previous_word_at oLib)
          (previous_synonym_at oLib)
          (back_word oLib)
          (back_synonym oLib)
          word
  unfolding advance previous_word_at previous_synonym_at previous_at back_word back_synonym at_local
  synonym_last word p e = ground (arith, e, eqb_iff word word)

  -- The greatest of the words before the places, with `none` for no word.
  abbrev pub previous_word : List Place → Option (Option Bytes)
  previous_word ps =
      weigh_all (pick (backwards collate)) (previous_word_at oLib) ps none >>= λ held.
      weigh_all (pick (backwards collate)) (previous_synonym_at oLib) ps held

  -- Every place behind the word, as a word or as a synonym, goes back to it.
  abbrev pub back_all : List Place → Bytes → Option (List Place × Option Bytes)
  back_all ps word = for_each (λ j p. moved word p) 0 ps >>= λ ps'. some (ps', some word)

  abbrev pub from_previous : List Place → Option Bytes → Option (List Place × Option Bytes)
  from_previous ps none = some (ps, none)
  from_previous ps (some word) = back_all ps word

  abbrev back_to : Bytes → List Place → Option (List Place × Option Bytes)
  back_to word ps' = some (ps', some word)

  ends :
      (ps : List Place)
      → IsOnce ps
      → Ends
          (backwards collate)
          (previous_word_at oLib)
          (previous_synonym_at oLib)
          (finish_back oLib)
          back_all
          ps
  unfolding finish_back step_back
  ends ps once = (
    λ qs. refl,
    λ h stands.
        loops-for_each ps once (previous_word_at oLib) (previous_synonym_at oLib) (back_word oLib)
          (back_synonym oLib) h.0 h.1 h.2 (back_to h.0) ps
        ∙ for_each-advanced (previous_word_at oLib) (previous_synonym_at oLib) (back_word oLib)
            (back_synonym oLib) h.0 (back_to h.0) ps h.1 h.2 (word_last h.0) (synonym_last h.0)
            stands,
  )

  -- The step from the word that the first two loops find.
  pub po_get_pre_word-previous_word :
      (ps : List Place)
      → IsOnce ps
      → po_get_pre_word oLib collate none ps ≡ (previous_word ps >>= from_previous ps)
  unfolding po_get_pre_word seek_word seek_synonym
  po_get_pre_word-previous_word ps once =
      read_loops (backwards collate) (previous_word_at oLib) (previous_synonym_at oLib)
        (finish_back oLib) back_all ps once (ends ps once)
