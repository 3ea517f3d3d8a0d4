-- ===== src/Libs/Next/Found.antt =====
-- The loops that look for the word from which a step starts (`Libs::poGetNextWord` and
-- `Libs::poGetPreWord` of source_codes/stardictd/src/lib/stddict.cpp), over any way to read a word.
use stardictd.Base.{
  ℕ, suc, ◌+◌, Bool, true, false, List, [], ◌∷◌, ◌≡◌, ◌⊎◌, inl, inr, refl, ap, ◌∙◌, subst, Option,
  none, some, ◌>>=◌, Bytes, get_elem?, arith,
}
use stardictd.Compare.{Ordering, Comparison}
use stardictd.Libs.{Place, weigh_all, pick}
use stardictd.Libs.Next.{Held, hold, read_loop}
use stardictd.Libs.Next.Once.{IsOnce, read_loop-read_plain}
use stardictd.Libs.Next.Plain.{read_plain}
use stardictd.Libs.Next.Advance.{Stands}

abbrev word_of : Held → Option Bytes
word_of none = none
word_of (some h) = some h.0

abbrev both : List Place → Option Bytes → List Place × Option Bytes
both ps w = (ps, w)

abbrev shown : List Place × Held → List Place × Option Bytes
shown r = both r.0 (word_of r.1)

module _ (collate : Comparison) where
  hold-pick :
      (held : Held) (c : Option Bytes) (i : ℕ) (is_lib : Bool)
      → word_of (hold collate held c i is_lib)
        ≡ (elim c [ none ↦ word_of held | some word ↦ pick collate (word_of held) word ])
  unfolding hold pick
  hold-pick none none i is_lib = refl
  hold-pick none (some w) i is_lib = refl
  hold-pick (some h) none i is_lib = refl
  hold-pick (some h) (some w) i is_lib = ground arith

  -- A loop that only reads leaves the places, and weighs their words.
  abbrev IsWeighed : (Place → Option (Option Bytes)) → Bool → ℕ → List Place → Held → Type 0
  IsWeighed read is_lib i ps held =
      (read_plain collate (λ p. some p) read is_lib i ps held >>= λ r. some (shown r))
      ≡ (weigh_all (pick collate) read ps (word_of held) >>= λ w. some (both ps w))

  weigh_on :
      (read : Place → Option (Option Bytes)) (is_lib : Bool) (i : ℕ) (p : Place) (ps : List Place)
      (held : Held) (o : Option (Option Bytes))
      → read p ≡ o
      → ((h : Held) → IsWeighed read is_lib (suc i) ps h)
      → IsWeighed read is_lib i (p ∷ ps) held
  unfolding read_plain weigh_all
  weigh_on read is_lib i p ps held none e ih = ground (arith, e)
  weigh_on read is_lib i p ps held (some none) e ih =
      ground (arith, e, ih (hold collate held none i is_lib), hold-pick held none i is_lib)
  weigh_on read is_lib i p ps held (some (some w)) e ih =
      ground (arith, e, ih (hold collate held (some w) i is_lib), hold-pick held (some w) i is_lib)

  read_plain-IsWeighed :
      (read : Place → Option (Option Bytes)) (is_lib : Bool) (i : ℕ) (ps : List Place) (held : Held)
      → IsWeighed read is_lib i ps held
  unfolding read_plain weigh_all
  read_plain-IsWeighed read is_lib i [] held = refl
  read_plain-IsWeighed read is_lib i (p ∷ ps) held =
      weigh_on read is_lib i p ps held (read p) refl (read_plain-IsWeighed read is_lib (suc i) ps)

  -- The word stands at a place of the list whose numbers begin with `i`.
  abbrev At : (Place → Option (Option Bytes)) → Bool → ℕ → List Place → Bytes × ℕ × Bool → Type 0
  At read is_lib i ps h =
      (j : ℕ) × (p : Place) × (h.1 ≡ i + j)
      × (h.2 ≡ is_lib)
      × (get_elem? ps j ≡ some p)
      × (read p ≡ some (some h.0))

  held_first :
      (read : Place → Option (Option Bytes)) (is_lib : Bool) (i : ℕ) (p : Place) (ps : List Place)
      (held : Held) (c : Option Bytes) (h : Bytes × ℕ × Bool)
      → read p ≡ some c
      → hold collate held c i is_lib ≡ some h
      → (held ≡ some h) ⊎ At read is_lib i (p ∷ ps) h
  unfolding hold
  held_first read is_lib i p ps held none h e is = inl is
  held_first read is_lib i p ps none (some w) h e is =
      inr (0, p, ground (arith, is), ground (arith, is), refl, ground (arith, e, is))
  held_first read is_lib i p ps (some g) (some w) h e is = by_order (collate g.0 w) refl
    where
      by_order :
          (o : Ordering) → collate g.0 w ≡ o → (some g ≡ some h) ⊎ At read is_lib i (p ∷ ps) h
      by_order Ordering.gt is_gt = inr (
        0,
        p,
        ground (arith, is, is_gt),
        ground (arith, is, is_gt),
        refl,
        ground (arith, e, is, is_gt),
      )
      by_order Ordering.lt is_lt = inl (ground (arith, is, is_lt))
      by_order Ordering.eq is_eq = inl (ground (arith, is, is_eq))

  -- What is held behind a loop was held before it, or stands at one of the places.
  abbrev IsHeld : (Place → Option (Option Bytes)) → Bool → ℕ → List Place → Held → Type 0
  IsHeld read is_lib i ps held =
      (qs : List Place) (h : Bytes × ℕ × Bool)
      → read_plain collate (λ p. some p) read is_lib i ps held ≡ some (qs, some h)
      → (held ≡ some h) ⊎ At read is_lib i ps h

  hold_on :
      (read : Place → Option (Option Bytes)) (is_lib : Bool) (i : ℕ) (p : Place) (ps : List Place)
      (held : Held) (c : Option (Option Bytes))
      → read p ≡ c
      → ((h : Held) → IsHeld read is_lib (suc i) ps h)
      → IsHeld read is_lib i (p ∷ ps) held
  unfolding read_plain
  hold_on read is_lib i p ps held none e ih qs h is = absurd (ground (arith, e, is))
  hold_on read is_lib i p ps held (some c) e ih qs h is =
      by_rest
        (read_plain collate (λ p. some p) read is_lib (suc i) ps (hold collate held c i is_lib))
        refl
    where
      by_rest :
          (r : Option (List Place × Held))
          → read_plain collate (λ p. some p) read is_lib (suc i) ps (hold collate held c i is_lib)
            ≡ r
          → (held ≡ some h) ⊎ At read is_lib i (p ∷ ps) h
      by_rest none k = absurd (ground (arith, e, is, k))
      by_rest (some (qs', h')) k =
          let same : h' ≡ some h = ground (arith, e, is, k) in
          elim (ih (hold collate held c i is_lib) qs' h (k ∙ ap (λ x. some (qs', x)) same)) [
            | inl first ↦ held_first read is_lib i p ps held c h e first
            | inr (j, q, num, kind, at, reads) ↦ inr (suc j, q, omega (arith, num), kind, at, reads)
          ]

  read_plain-IsHeld :
      (read : Place → Option (Option Bytes)) (is_lib : Bool) (i : ℕ) (ps : List Place) (held : Held)
      → IsHeld read is_lib i ps held
  unfolding read_plain
  read_plain-IsHeld read is_lib i [] held = λ qs h e. inl (ground (arith, e))
  read_plain-IsHeld read is_lib i (p ∷ ps) held =
      hold_on read is_lib i p ps held (read p) refl (read_plain-IsHeld read is_lib (suc i) ps)

module _ (collate : Comparison) (word_at synonym_at : Place → Option (Option Bytes))
    (finish : List Place → Held → Option (List Place × Option Bytes))
    (move_all : List Place → Bytes → Option (List Place × Option Bytes)) where
  -- What a step does when the first two loops have found a word, or none.
  abbrev pub from_found : List Place → Option Bytes → Option (List Place × Option Bytes)
  from_found ps none = some (ps, none)
  from_found ps (some word) = move_all ps word

  stands :
      (ps : List Place) (h1 : Held) (qs qs' : List Place) (h : Bytes × ℕ × Bool)
      → read_plain collate (λ p. some p) word_at true 0 ps none ≡ some (qs, h1)
      → read_plain collate (λ p. some p) synonym_at false 0 ps h1 ≡ some (qs', some h)
      → Stands word_at synonym_at h.0 ps h.1 h.2
  stands ps h1 qs qs' h e1 e2 = elim (read_plain-IsHeld collate synonym_at false 0 ps h1 qs' h e2) [
    | inl before ↦
        elim (read_plain-IsHeld collate word_at true 0 ps none qs h
          (e1 ∙ ap (λ x. some (qs, x)) before)) [
            | inl never ↦ absurd (cc never)
            | inr (j, p, num, kind, at, reads) ↦
                (p, subst (λ n. get_elem? ps n ≡ some p) (omega (arith, num)) at, rw kind reads)
          ]
    | inr (j, p, num, kind, at, reads) ↦
        (p, subst (λ n. get_elem? ps n ≡ some p) (omega (arith, num)) at, rw kind reads)
  ]

  -- The end of a step: nothing without a word, and with one what `move_all` says, if the word stands
  -- where it is held to stand.
  abbrev pub Ends : List Place → Type 0
  Ends ps =
      ((qs : List Place) → finish qs none ≡ some (qs, none))
      × ((h : Bytes × ℕ × Bool)
          → Stands word_at synonym_at h.0 ps h.1 h.2
          → finish ps (some h) ≡ move_all ps h.0)

  -- The second loop and the end, from what the first one gives.
  behind_words :
      (ps : List Place) (h1 : Held) (r : Option (List Place × Held))
      → Ends ps
      → read_plain collate (λ p. some p) word_at true 0 ps none ≡ some (ps, h1)
      → read_plain collate (λ p. some p) synonym_at false 0 ps h1 ≡ r
      → (r >>= λ r2. finish r2.0 r2.1)
        ≡ (weigh_all (pick collate) synonym_at ps (word_of h1) >>= from_found ps)
  behind_words ps h1 none ends e1 e2 =
      let weighed = read_plain-IsWeighed collate synonym_at false 0 ps h1 in
      ground (arith, e2, weighed)
  behind_words ps h1 (some (qs, none)) ends e1 e2 =
      let weighed = read_plain-IsWeighed collate synonym_at false 0 ps h1 in
      let over = ends.0 qs in ground (arith, e2, weighed, over)
  behind_words ps h1 (some (qs, some h)) ends e1 e2 =
      let weighed = read_plain-IsWeighed collate synonym_at false 0 ps h1 in
      let moved = ends.1 h (stands ps h1 ps qs h e1 e2) in ground (arith, e2, weighed, moved)

  -- The two loops and the end behind them.
  plain_loops :
      (ps : List Place) (r : Option (List Place × Held))
      → Ends ps
      → read_plain collate (λ p. some p) word_at true 0 ps none ≡ r
      → (r >>= λ r1.
          read_plain collate (λ p. some p) synonym_at false 0 r1.0 r1.1 >>= λ r2. finish r2.0 r2.1)
        ≡ ((weigh_all (pick collate) word_at ps none >>= λ held.
              weigh_all (pick collate) synonym_at ps held)
            >>= from_found ps)
  plain_loops ps none ends e =
      let weighed = read_plain-IsWeighed collate word_at true 0 ps none in
      ground (arith, e, weighed)
  plain_loops ps (some (qs, h1)) ends e =
      let weighed = read_plain-IsWeighed collate word_at true 0 ps none in
      let places : qs ≡ ps = ground (arith, e, weighed) in
      let found : weigh_all (pick collate) word_at ps none ≡ some (word_of h1) =
        ground (arith, e, weighed) in
      rw (places, found) (behind_words ps h1 _ ends (e ∙ ap (λ x. some (x, h1)) places) refl)

  -- The same, over the loops that may lose a word.
  pub read_loops :
      (ps : List Place)
      → IsOnce ps
      → Ends ps
      → (read_loop ps collate (λ p. some p) word_at true 0 ps none >>= λ r1.
          read_loop ps collate (λ p. some p) synonym_at false 0 r1.0 r1.1 >>= λ r2.
          finish r2.0 r2.1)
        ≡ ((weigh_all (pick collate) word_at ps none >>= λ held.
              weigh_all (pick collate) synonym_at ps held)
            >>= from_found ps)
  read_loops ps once ends =
      let first =
        read_loop-read_plain ps once collate (λ p. some p) word_at true 0 ps none
          (λ h e k. absurd (cc e)) in
      rw first (by_first (read_plain collate (λ p. some p) word_at true 0 ps none) refl)
    where
      by_first :
          (r : Option (List Place × Held))
          → read_plain collate (λ p. some p) word_at true 0 ps none ≡ r
          → (r >>= λ r1. read_loop ps collate (λ p. some p) synonym_at false 0 r1.0 r1.1 >>= λ r2.
              finish r2.0 r2.1)
            ≡ ((weigh_all (pick collate) word_at ps none >>= λ held.
                  weigh_all (pick collate) synonym_at ps held)
                >>= from_found ps)
      by_first none e = plain_loops ps none ends e
      by_first (some (qs, h1)) e =
          let second =
            read_loop-read_plain ps once collate (λ p. some p) synonym_at false 0 qs h1
              (λ h is kind.
                elim (read_plain-IsHeld collate word_at true 0 ps none qs h
                  (e ∙ ap (λ x. some (qs, x)) is)) [
                    | inl never ↦ absurd (cc never)
                    | inr (j, p, num, kind', at, reads) ↦ absurd (cc (kind, kind'))
                  ]) in
          rw second (plain_loops ps (some (qs, h1)) ends e)
