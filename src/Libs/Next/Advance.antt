-- ===== src/Libs/Next/Advance.antt =====
-- The loops that move the dictionaries which stand at a word (`Libs::poGetNextWord` and
-- `Libs::poGetPreWord` of source_codes/stardictd/src/lib/stddict.cpp), over any way to read a word and
-- to move a place.
use stardictd.Base.{
  ℕ, suc, ◌+◌, Bool, true, false, not, List, [], ◌∷◌, ◌≡◌, inl, inr, refl, ap, ◌∙◌, Option, none,
  some, ◌>>=◌, Bytes, ◌==◌, ==_iff, if◌then◌else◌, get_elem?, arith, Bool-cases,
}
use stardictd.Libs.{Place}
use stardictd.Libs.Next.{advance}
use stardictd.Libs.Next.Plain.{for_each, advance_plain, move_plain}

module _ (f g : ℕ → Place → Option Place) where
  for_each-bind :
      (i : ℕ) (ps : List Place)
      → (for_each f i ps >>= for_each g i) ≡ for_each (λ j p. f j p >>= g j) i ps
  unfolding for_each
  for_each-bind i [] = refl
  for_each-bind i (p ∷ ps) = ground (arith, for_each-bind (suc i) ps)

  for_each-same :
      (i : ℕ) (ps : List Place)
      → ((k n : ℕ) (p : Place) → n ≡ i + k → get_elem? ps k ≡ some p → f n p ≡ g n p)
      → for_each f i ps ≡ for_each g i ps
  unfolding for_each
  for_each-same i [] h = refl
  for_each-same i (p ∷ ps) h =
      let rest = for_each-same (suc i) ps λ k n q at e. h (suc k) n q (omega arith) e in
      let here : f i p ≡ g i p = h 0 i p (omega arith) refl in rw (here, rest) refl

three :
    {B : Type 0} (f g h : ℕ → Place → Option Place) (K : List Place → Option B) (i : ℕ)
    (ps : List Place)
    → (for_each f i ps >>= λ ps1. for_each g i ps1 >>= λ ps2. for_each h i ps2 >>= K)
      ≡ (for_each (λ j p. f j p >>= λ p1. g j p1 >>= h j) i ps >>= K)
three f g h K i ps = by_first (for_each f i ps) refl
  where
    both : ℕ → Place → Option Place
    both j p = g j p >>= h j

    by_second :
        (ps1 : List Place) (o : Option (List Place))
        → for_each g i ps1 ≡ o
        → for_each g i ps1 >>= (λ ps2. for_each h i ps2 >>= K) ≡ for_each both i ps1 >>= K
    by_second ps1 none e = rw (← for_each-bind g h i ps1, e) refl
    by_second ps1 (some ps2) e = rw (← for_each-bind g h i ps1, e) refl

    by_first :
        (o : Option (List Place))
        → for_each f i ps ≡ o
        → (for_each f i ps >>= λ ps1. for_each g i ps1 >>= λ ps2. for_each h i ps2 >>= K)
          ≡ (for_each (λ j p. f j p >>= both j) i ps >>= K)
    by_first none e = rw (← for_each-bind f both i ps, e) refl
    by_first (some ps1) e = rw (← for_each-bind f both i ps, e) (by_second ps1 _ refl)

module _ (word_at synonym_at : Place → Option (Option Bytes)) (word : Bytes) where
  -- The place at which the current word stands, among the words or among the synonyms.
  abbrev pub Stands : List Place → ℕ → Bool → Type 0
  Stands ps k is_lib =
      (p : Place) × (get_elem? ps k ≡ some p)
      × ((if is_lib then word_at p else synonym_at p) ≡ some (some word))

module _ (word_at synonym_at : Place → Option (Option Bytes))
    (move_word move_synonym : Place → Option Place) (word : Bytes) where
  -- A place whose words, of both kinds, are moved on when they are the current one.
  abbrev pub advanced : Place → Option Place
  advanced p = advance word_at move_word word p >>= advance synonym_at move_synonym word

  -- To read the one kind of word and to move at the other have nothing to do with each other, so the
  -- place of the current word may be moved last.
  abbrev pub WordLast : Type 0
  WordLast =
      (p : Place)
      → word_at p ≡ some (some word)
      → (advance synonym_at move_synonym word p >>= move_word) ≡ advanced p

  abbrev pub SynonymLast : Type 0
  SynonymLast =
      (p : Place)
      → synonym_at p ≡ some (some word)
      → (advance word_at move_word word p >>= move_synonym) ≡ advanced p

  -- What the three loops do to the place with number `n`.
  abbrev stepped : ℕ → Bool → ℕ → Place → Option Place
  stepped k is_lib n p = advance_plain word_at move_word word is_lib k n p >>= λ p1.
      advance_plain synonym_at move_synonym word (not is_lib) k n p1
      >>= move_plain (if is_lib then move_word else move_synonym) k n

  elsewhere :
      (k n : ℕ) (is_lib : Bool) (p : Place) → (n == k) ≡ false → stepped k is_lib n p ≡ advanced p
  unfolding advance_plain move_plain
  elsewhere k n is_lib p e = ground (arith, e)

  here :
      (k n : ℕ) (is_lib : Bool) (p : Place)
      → WordLast
      → SynonymLast
      → (n == k) ≡ true
      → ((if is_lib then word_at p else synonym_at p) ≡ some (some word))
      → stepped k is_lib n p ≡ advanced p
  unfolding advance_plain move_plain
  here k n true p word_last synonym_last e reads = ground (arith, e, word_last p reads)
  here k n false p word_last synonym_last e reads = ground (arith, e, synonym_last p reads)

  at_index :
      (ps : List Place) (k : ℕ) (is_lib : Bool)
      → WordLast
      → SynonymLast
      → Stands word_at synonym_at word ps k is_lib
      → (j n : ℕ) (p : Place) → n ≡ 0 + j
      → get_elem? ps j ≡ some p
      → stepped k is_lib n p ≡ advanced p
  at_index ps k is_lib word_last synonym_last (q, at, reads) j n p num e =
      elim (Bool-cases (n == k)) [
        | inl same ↦
            let index : k ≡ j = omega (arith, (==_iff n k).0 same) in
            let place : q ≡ p = ground (arith, at, e, index) in
            here k n is_lib p word_last synonym_last same (rw (← place) reads)
        | inr other ↦ elsewhere k n is_lib p other
      ]

  -- From a place at which the current word stands, the three loops advance every place.
  pub for_each-advanced :
      {B : Type 0} (K : List Place → Option B) (ps : List Place) (k : ℕ) (is_lib : Bool)
      → WordLast
      → SynonymLast
      → Stands word_at synonym_at word ps k is_lib
      → (for_each (advance_plain word_at move_word word is_lib k) 0 ps >>= λ ps1.
          for_each (advance_plain synonym_at move_synonym word (not is_lib) k) 0 ps1 >>= λ ps2.
          for_each (move_plain (if is_lib then move_word else move_synonym) k) 0 ps2 >>= K)
        ≡ (for_each (λ j p. advanced p) 0 ps >>= K)
  for_each-advanced K ps k is_lib word_last synonym_last stands =
      three _ _ _ _ 0 ps
      ∙ ap (λ m. m >>= K)
          (for_each-same _ _ 0 ps
            λ j n p num e. at_index ps k is_lib word_last synonym_last stands j n p num e)
