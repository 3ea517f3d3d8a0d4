-- ===== src/Libs/Previous/Greatest.antt =====
-- Which word a step backwards goes to (`Libs::poGetPreWord` of
-- source_codes/stardictd/src/lib/stddict.cpp).
use stardictd.Base.{
  ℕ, zero, suc, ◌<◌, ◌≤◌, Bool, true, false, not, ◌&&◌, List, [], ◌∷◌, ◌++◌, ◌≡◌, ◌≢◌, ◌⊎◌, inl,
  inr, refl, sym, ap, ◌∙◌, Option, none, some, ◌>>=◌, Bytes, get_elem?, arith, All,
}
use stardictd.Base.Int.{ℤ, pos, negsuc}
use stardictd.Compare.{Ordering, Comparison}
use stardictd.Compare.Order.{IsPreorder}
use stardictd.Lookup.{invalid_index}
use stardictd.Libs.{
  InstantDictType, unknown_dict, local_dict, virtual_dict, net_dict, Place, is_unset, pick,
}
use stardictd.Libs.Least.{
  Among, IsLeast, words_read, fold_words, fold_words-append, weigh_all-fold_words,
  fold_pick-IsLeast,
}
use stardictd.Libs.Next.{Stepper}
use stardictd.Libs.Next.Once.{IsOnce}
use stardictd.Libs.Previous.{
  backwards, has_previous, previous_at, previous_word_at, previous_synonym_at, po_get_pre_word,
}
use stardictd.Libs.Previous.Before.{previous_word, from_previous, po_get_pre_word-previous_word}

-- The word before an index of a file with `count` words, if there is one: before `INVALID_INDEX` and
-- before each word but the first, what `GetWordPrev` finds.
pub data Before (count : ℕ) (prev : ℤ → Bool × ℤ) (word_at : ℤ → Option Bytes)
    : ℤ → Option Bytes → Type 0 where
  from_end :
      (w : Bytes)
      → (prev invalid_index).0 ≡ true
      → word_at (prev invalid_index).1 ≡ some w
      → Before count prev word_at invalid_index (some w)
  from_word :
      (i : ℕ) (w : Bytes)
      → 0 < i
      → i < count
      → (prev (pos i)).0 ≡ true
      → word_at (prev (pos i)).1 ≡ some w
      → Before count prev word_at (pos i) (some w)
  at_first : Before count prev word_at (pos 0) none
  past_end : (i : ℕ) → count ≤ i → Before count prev word_at (pos i) none
  no_index : (n : ℕ) → n ≢ 99 → Before count prev word_at (negsuc n) none
  not_found : (idx : ℤ) → (prev idx).0 ≡ false → Before count prev word_at idx none

module _ (oLib : List Stepper) where
  -- The word, and the synonym, before a place: none for a dictionary that is not in this process.
  abbrev pub WordBefore : Place → Option Bytes → Type 0
  WordBefore p o =
      ((p.0.type_of ≢ local_dict) × (o ≡ none))
      ⊎ ((d : Stepper) × (p.0.type_of ≡ local_dict)
          × (get_elem? oLib p.0.index ≡ some d)
          × Before d.library.narticles d.word_prev d.library.get_word p.1.idx o)

  abbrev pub SynonymBefore : Place → Option Bytes → Type 0
  SynonymBefore p o =
      ((p.0.type_of ≢ local_dict) × (o ≡ none))
      ⊎ ((d : Stepper) × (p.0.type_of ≡ local_dict)
          × (get_elem? oLib p.0.index ≡ some d)
          × Before d.library.nsynarticles d.synonym_prev d.library.get_synonym_word p.1.synidx o)

-- The words before the places, in order.
abbrev pub AllBefore : (Place → Option Bytes → Type 0) → List Place → List Bytes → Type 0
AllBefore B [] ws = ws ≡ []
AllBefore B (p ∷ ps) ws =
    (o : Option Bytes) × (rest : List Bytes) × B p o
    × AllBefore B ps rest
    × (ws ≡ (elim o [ none ↦ rest | some w ↦ w ∷ rest ]))

-- Nothing of no words; otherwise one of them that goes before no other.
abbrev pub IsGreatest : Comparison → List Bytes → Option Bytes → Type 0
IsGreatest collate [] o = o ≡ none
IsGreatest collate (x ∷ xs) none = ⊥
IsGreatest collate (x ∷ xs) (some w) =
    Among w (x ∷ xs) × All (λ y. collate w y ≢ Ordering.lt) (x ∷ xs)

before_lem :
    (count : ℕ) (prev : ℤ → Bool × ℤ) (word_at : ℤ → Option Bytes) (idx : ℤ) (o : Option Bytes)
    → Before count prev word_at idx o
    → (elim (has_previous count idx && (prev idx).0) [
      | true ↦ word_at (prev idx).1 >>= λ w. some (some w)
      | false ↦ some none
    ])
      ≡ some o
before_lem count prev word_at _ _ (from_end w found reads) = ground (arith, found, reads)
before_lem count prev word_at _ _ (from_word i w behind inside found reads) =
    ground (arith, behind, inside, found, reads)
before_lem count prev word_at _ _ at_first = refl
before_lem count prev word_at _ _ (past_end i past) = ground (arith, past)
before_lem count prev word_at _ _ (no_index n other) = ground (arith, other)
before_lem count prev word_at _ _ (not_found idx e) = ground (arith, e)

set_lem :
    (count : ℕ) (idx : ℤ) (b : Bool)
    → (not (is_unset idx) && has_previous count idx && b) ≡ (has_previous count idx && b)
set_lem count (pos i) b = refl
set_lem count (negsuc zero) b = refl
set_lem count (negsuc (suc n)) b = ground arith

module _ (oLib : List Stepper) where
  word_lem : (p : Place) (o : Option Bytes) → WordBefore oLib p o → previous_word_at oLib p ≡ some o
  unfolding previous_word_at previous_at
  word_lem p o (inr (d, local, at, before)) =
      let reads = before_lem d.library.narticles d.word_prev d.library.get_word p.1.idx o before in
      rw (local, at) reads
  word_lem p o (inl (other, nothing)) = by_type p.0.type_of refl
    where
      by_type : (t : InstantDictType) → p.0.type_of ≡ t → previous_word_at oLib p ≡ some o
      by_type unknown_dict e = rw (e, nothing) refl
      by_type local_dict e = absurd (other e)
      by_type virtual_dict e = rw (e, nothing) refl
      by_type net_dict e = rw (e, nothing) refl

  synonym_lem :
      (p : Place) (o : Option Bytes) → SynonymBefore oLib p o → previous_synonym_at oLib p ≡ some o
  unfolding previous_synonym_at previous_at
  synonym_lem p o (inr (d, local, at, before)) =
      let reads =
        before_lem d.library.nsynarticles d.synonym_prev d.library.get_synonym_word p.1.synidx o
          before in
      let found = (d.synonym_prev p.1.synidx).0 in
      let reading : Bool → Option (Option Bytes) = λ b. elim b [
        | true ↦ d.library.get_synonym_word (d.synonym_prev p.1.synidx).1 >>= λ w. some (some w)
        | false ↦ some none
      ] in
      rw (local, at) (ap reading (set_lem d.library.nsynarticles p.1.synidx found) ∙ reads)
  synonym_lem p o (inl (other, nothing)) = by_type p.0.type_of refl
    where
      by_type : (t : InstantDictType) → p.0.type_of ≡ t → previous_synonym_at oLib p ≡ some o
      by_type unknown_dict e = rw (e, nothing) refl
      by_type local_dict e = absurd (other e)
      by_type virtual_dict e = rw (e, nothing) refl
      by_type net_dict e = rw (e, nothing) refl

words_read_lem :
    (B : Place → Option Bytes → Type 0) (read : Place → Option (Option Bytes))
    → ((p : Place) (o : Option Bytes) → B p o → read p ≡ some o)
    → (ps : List Place) (ws : List Bytes) → AllBefore B ps ws
    → words_read read ps ≡ some ws
words_read_lem B read reads [] ws e = ap some (sym e)
words_read_lem B read reads (p ∷ ps) ws (o, rest, before, all, e) =
    rw (reads p o before, words_read_lem B read reads ps rest all) (ap some (sym e))

module _ (collate : Comparison) (pre : IsPreorder collate) where
  backwards-IsPreorder : IsPreorder (backwards collate)
  backwards-IsPreorder = record {
    flips = λ a b. ground (arith, pre.flips a b);
    trans = λ a b c h k.
        ground (arith, h, k, pre.flips a b, pre.flips b c, pre.flips a c, pre.trans c b a);
  }

  not_before :
      (w : Bytes) (ys : List Bytes)
      → All (λ y. backwards collate w y ≢ Ordering.gt) ys
      → All (λ y. collate w y ≢ Ordering.lt) ys
  not_before w [] h = tt
  not_before w (y ∷ ys) (h, hs) = (λ e. ground (arith, h, e), not_before w ys hs)

  greatest_lem :
      (ws : List Bytes) (o : Option Bytes)
      → IsLeast (backwards collate) ws o
      → IsGreatest collate ws o
  greatest_lem [] o h = h
  greatest_lem (x ∷ xs) none h = h
  greatest_lem (x ∷ xs) (some w) (among, least) = (among, not_before w (x ∷ xs) least)

  -- When each dictionary is chosen once, the comparison ranks the strings, and the words and the synonyms
  -- before the places can be read, `poGetPreWord` without a word to look up goes back to one of them
  -- that goes before no other: each index whose previous word it is moves back to it, once, the others
  -- stay, and that word is the result. It gives none, and moves nothing, when no place has a word
  -- before it.
  pub po_get_pre_word-IsGreatest :
      (oLib : List Stepper) (ps : List Place) (ws vs : List Bytes)
      → IsOnce ps
      → AllBefore (WordBefore oLib) ps ws
      → AllBefore (SynonymBefore oLib) ps vs
      → (o : Option Bytes) × (po_get_pre_word oLib collate none ps
          ≡ from_previous oLib collate ps o)
        × IsGreatest collate (ws ++ vs) o
  po_get_pre_word-IsGreatest oLib ps ws vs once words synonyms =
      let weigh = pick (backwards collate) in
      let o = fold_words weigh none (ws ++ vs) in
      let e =
        words_read_lem (WordBefore oLib) (previous_word_at oLib) (word_lem oLib) ps ws words in
      let f =
        words_read_lem (SynonymBefore oLib) (previous_synonym_at oLib) (synonym_lem oLib) ps vs
          synonyms in
      let all = fold_words-append weigh ws vs none in
      let found : previous_word oLib collate ps ≡ some o =
        rw (weigh_all-fold_words weigh (previous_word_at oLib) ps ws none e) (
          weigh_all-fold_words weigh (previous_synonym_at oLib) ps vs (fold_words weigh none ws) f
          ∙ ap some (sym all)) in
      (
        o,
        po_get_pre_word-previous_word oLib collate ps once
            ∙ ap (λ m. m >>= from_previous oLib collate ps) found,
        greatest_lem (ws ++ vs) o
            (fold_pick-IsLeast (backwards collate) backwards-IsPreorder (ws ++ vs)),
      )
