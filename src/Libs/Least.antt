-- ===== src/Libs/Least.antt =====
-- Which of the dictionaries' words is the current one (source_codes/stardictd/src/lib/stddict.cpp,
-- `Libs::poGetCurrentWord`).
use stardictd.Base.{
  ◌≡◌, ◌≢◌, refl, sym, ap, ◌∙◌, ◌⊎◌, inl, inr, arith, List, [], ◌∷◌, ◌++◌, Option, none, some,
  ◌>>=◌, Bytes, All,
}
use stardictd.Compare.{Ordering, Comparison}
use stardictd.Compare.Order.{IsPreorder}
use stardictd.Libs.{
  Place, Library, current_word_at, current_synonym_at, weigh_all, pick, po_get_current_word,
}

some-injective : (a b : List Bytes) → some a ≡ some b → a ≡ b
some-injective a b e = cc

abbrev pub Among : Bytes → List Bytes → Type 0
Among w [] = ⊥
Among w (x ∷ xs) = (w ≡ x) ⊎ Among w xs

-- Nothing of no words; otherwise one of them that no word goes before.
abbrev pub IsLeast : Comparison → List Bytes → Option Bytes → Type 0
IsLeast collate [] o = o ≡ none
IsLeast collate (x ∷ xs) none = ⊥
IsLeast collate (x ∷ xs) (some w) = Among w (x ∷ xs) × All (λ y. collate w y ≢ Ordering.gt) (x ∷ xs)

-- The words that the rounds of a loop read, in order.
abbrev pub words_read : (Place → Option (Option Bytes)) → List Place → Option (List Bytes)
words_read read [] = some []
words_read read (p ∷ ps) = do
  c ← read p
  ws ← words_read read ps
  some (elim c [ none ↦ ws | some word ↦ word ∷ ws ])

module _ {A : Type 0} (weigh : Option A → Bytes → Option A) where
  abbrev pub fold_words : Option A → List Bytes → Option A
  fold_words held [] = held
  fold_words held (w ∷ ws) = fold_words (weigh held w) ws

  pub fold_words-append :
      (ws vs : List Bytes) (held : Option A)
      → fold_words held (ws ++ vs) ≡ fold_words (fold_words held ws) vs
  fold_words-append [] vs held = refl
  fold_words-append (w ∷ ws) vs held = fold_words-append ws vs (weigh held w)

  round_lem :
      (read : Place → Option (Option Bytes)) (p : Place) (ps : List Place) (ws : List Bytes)
      (held : Option A) (c : Option (Option Bytes)) (rest : Option (List Bytes))
      → read p ≡ c
      → words_read read ps ≡ rest
      → ((vs : List Bytes) (h : Option A)
          → rest ≡ some vs
          → weigh_all weigh read ps h ≡ some (fold_words h vs))
      → words_read read (p ∷ ps) ≡ some ws
      → weigh_all weigh read (p ∷ ps) held ≡ some (fold_words held ws)
  unfolding weigh_all
  round_lem read p ps ws held none rest h k go e = let stuck : none ≡ some ws = rw h at e in cc
  round_lem read p ps ws held (some c) none h k go e =
      let stuck : none ≡ some ws = rw k at (rw h at e) in cc
  round_lem read p ps ws held (some none) (some vs) h k go e =
      let same : vs ≡ ws = some-injective vs ws (rw k at (rw h at e)) in
      rw h (rw (← same) (go vs held refl))
  round_lem read p ps ws held (some (some w)) (some vs) h k go e =
      let same : w ∷ vs ≡ ws = some-injective (w ∷ vs) ws (rw k at (rw h at e)) in
      rw h (rw (← same) (go vs (weigh held w) refl))

  -- If the words can be read, the loop weighs them one after the other.
  pub weigh_all-fold_words :
      (read : Place → Option (Option Bytes)) (ps : List Place) (ws : List Bytes) (held : Option A)
      → words_read read ps ≡ some ws
      → weigh_all weigh read ps held ≡ some (fold_words held ws)
  unfolding weigh_all
  weigh_all-fold_words read [] ws held e = rw (← some-injective [] ws e) refl
  weigh_all-fold_words read (p ∷ ps) ws held e =
      round_lem read p ps ws held (read p) (words_read read ps) refl refl
        (λ vs h k. weigh_all-fold_words read ps vs h k) e

module _ (collate : Comparison) (pre : IsPreorder collate) where
  -- Weighing one word leaves one of the two, and neither goes before it.
  pick_lem :
      (c x : Bytes)
      → (w : Bytes) × (pick collate (some c) x ≡ some w)
        × ((w ≡ c) ⊎ (w ≡ x))
        × (collate w c ≢ Ordering.gt)
        × (collate w x ≢ Ordering.gt)
  unfolding pick
  pick_lem c x = by_order (collate c x) refl
    where
      self : (a : Bytes) → collate a a ≢ Ordering.gt
      self a e = ground (arith, pre.flips a a)

      by_order :
          (o : Ordering)
          → collate c x ≡ o
          → (w : Bytes) × (pick collate (some c) x ≡ some w)
            × ((w ≡ c) ⊎ (w ≡ x))
            × (collate w c ≢ Ordering.gt)
            × (collate w x ≢ Ordering.gt)
      by_order Ordering.gt h =
          (x, rw (h, pick) refl, inr refl, ground (arith, pre.flips c x), self x)
      by_order Ordering.lt h = (c, rw (h, pick) refl, inl refl, self c, λ e. cc)
      by_order Ordering.eq h = (c, rw (h, pick) refl, inl refl, self c, λ e. cc)

  fold_pick_lem :
      (c : Bytes) (ws : List Bytes)
      → (w : Bytes) × (fold_words (pick collate) (some c) ws ≡ some w)
        × Among w (c ∷ ws)
        × All (λ y. collate w y ≢ Ordering.gt) (c ∷ ws)
  fold_pick_lem c [] = (c, refl, inl refl, ((λ e. ground (arith, pre.flips c c)), tt))
  fold_pick_lem c (x ∷ ws) =
      let (v, picked, which, before_c, before_x) = pick_lem c x in
      let (w, folds, among, least) = fold_pick_lem v ws in
      (
        w,
        rw picked folds,
        place v w which among,
        (pre.trans w v c least.0 before_c, (pre.trans w v x least.0 before_x, least.1)),
      )
    where
      place : (v w : Bytes) → ((v ≡ c) ⊎ (v ≡ x)) → Among w (v ∷ ws) → Among w (c ∷ (x ∷ ws))
      place v w (inl e) (inl f) = inl (f ∙ e)
      place v w (inr e) (inl f) = inr (inl (f ∙ e))
      place v w e (inr f) = inr (inr f)

  pub fold_pick-IsLeast : (ws : List Bytes) → IsLeast collate ws (fold_words (pick collate) none ws)
  unfolding pick
  fold_pick-IsLeast [] = refl
  fold_pick-IsLeast (x ∷ ws) =
      let (w, folds, among, least) = fold_pick_lem x ws in rw folds (among, least)

  -- If the comparison ranks the strings and the words and synonyms at the current indices can be
  -- read, `poGetCurrentWord` returns one of them that no other goes before, or null if there is none.
  pub po_get_current_word-IsLeast :
      (oLib : List Library) (ps : List Place) (ws vs : List Bytes)
      → words_read (current_word_at oLib) ps ≡ some ws
      → words_read (current_synonym_at oLib) ps ≡ some vs
      → (o : Option Bytes) × (po_get_current_word collate oLib ps ≡ some o)
        × IsLeast collate (ws ++ vs) o
  unfolding po_get_current_word
  po_get_current_word-IsLeast oLib ps ws vs e f =
      let all = fold_words-append (pick collate) ws vs none in
      (
        fold_words (pick collate) none (ws ++ vs),
        rw (weigh_all-fold_words (pick collate) (current_word_at oLib) ps ws none e) (
            rw (weigh_all-fold_words (pick collate) (current_synonym_at oLib) ps vs _ f)
              (ap some (sym all))),
        fold_pick-IsLeast (ws ++ vs),
      )
