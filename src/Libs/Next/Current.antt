-- ===== src/Libs/Next/Current.antt =====
-- The word from which a step of the walk starts (`Libs::poGetNextWord` of
-- source_codes/stardictd/src/lib/stddict.cpp), and the step as a whole.
use stardictd.Base.{eqb_iff, arith, List, ◌≡◌, ◌∙◌, refl, Option, none, some, ◌>>=◌, Bytes}
use stardictd.Compare.{Comparison}
use stardictd.Libs.{Place, candidate, current_word_at, current_synonym_at, po_get_current_word}
use stardictd.Libs.Next.{
  Stepper, libraries, seek_word, seek_synonym, at_local, move_word, move_synonym, advance, step_all,
  finish, po_get_next_word,
}
use stardictd.Libs.Next.Advance.{advanced, WordLast, SynonymLast, for_each-advanced}
use stardictd.Libs.Next.Plain.{for_each}
use stardictd.Libs.Next.Once.{IsOnce, loops-for_each}
use stardictd.Libs.Next.Found.{Ends, read_loops}

module _ (oLib : List Stepper) (collate : Comparison) where
  abbrev word_at : Place → Option (Option Bytes)
  word_at = current_word_at (libraries oLib)

  abbrev synonym_at : Place → Option (Option Bytes)
  synonym_at = current_synonym_at (libraries oLib)

  abbrev moved : Bytes → Place → Option Place
  moved word p = advanced word_at synonym_at (move_word oLib) (move_synonym oLib) word p

  word_last : (word : Bytes) → WordLast word_at synonym_at (move_word oLib) (move_synonym oLib) word
  unfolding advance current_word_at current_synonym_at candidate move_word move_synonym at_local
  word_last word p e = ground (arith, e, eqb_iff word word)

  synonym_last :
      (word : Bytes) → SynonymLast word_at synonym_at (move_word oLib) (move_synonym oLib) word
  unfolding advance current_word_at current_synonym_at candidate move_word move_synonym at_local
  synonym_last word p e = ground (arith, e, eqb_iff word word)

  -- Every place at which the word stands, as a word or as a synonym, is moved on by `GetWordNext`, and
  -- the word is the current one of the places then.
  abbrev pub move_all : List Place → Bytes → Option (List Place × Option Bytes)
  move_all ps word = for_each (λ j p. moved word p) 0 ps >>= λ ps'.
      po_get_current_word collate (libraries oLib) ps' >>= λ w. some (ps', w)

  abbrev then_current : List Place → Option (List Place × Option Bytes)
  then_current ps' = po_get_current_word collate (libraries oLib) ps' >>= λ w. some (ps', w)

  abbrev pub from_current : List Place → Option Bytes → Option (List Place × Option Bytes)
  from_current ps none = some (ps, none)
  from_current ps (some word) = move_all ps word

  ends :
      (ps : List Place)
      → IsOnce ps
      → Ends collate word_at synonym_at (finish oLib collate) move_all ps
  unfolding finish step_all
  ends ps once = (
    λ qs. refl,
    λ h stands.
        loops-for_each ps once word_at synonym_at (move_word oLib) (move_synonym oLib) h.0 h.1 h.2
          then_current ps
        ∙ for_each-advanced word_at synonym_at (move_word oLib) (move_synonym oLib) h.0 then_current
            ps h.1 h.2 (word_last h.0) (synonym_last h.0) stands,
  )

  -- When each dictionary is chosen once, and without a word to look up, `poGetNextWord` takes the current
  -- word of the dictionaries, moves on, once, each index of a word and each index of a synonym that
  -- stands at it, leaves the others where they are, and gives the current word of the places that
  -- result; it gives none, and moves nothing, when there is no current word.
  pub po_get_next_word-po_get_current_word :
      (ps : List Place)
      → IsOnce ps
      → po_get_next_word oLib collate none ps
        ≡ (po_get_current_word collate (libraries oLib) ps >>= from_current ps)
  unfolding po_get_next_word seek_word seek_synonym po_get_current_word
  po_get_next_word-po_get_current_word ps once =
      read_loops collate word_at synonym_at (finish oLib collate) move_all ps once (ends ps once)
