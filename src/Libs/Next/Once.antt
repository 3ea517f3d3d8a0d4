-- ===== src/Libs/Next/Once.antt =====
-- When each dictionary is chosen once, a word stays where it was read as long as the walks over several
-- dictionaries need it (source_codes/stardictd/src/lib/stddict.cpp, `Libs`).
use stardictd.Base.{
  ℕ, suc, ◌<◌, Bool, true, false, not, List, [], ◌∷◌, ◌≡◌, refl, Option, none, some, ◌>>=◌, Bytes,
  ◌==◌, if◌then◌else◌, get_elem?, arith, Option-cases, Bool-cases, inl, inr,
}
use stardictd.Compare.{Ordering, Comparison}
use stardictd.Libs.{Place, local_dict}
use stardictd.Libs.Next.{
  Held, hold, same_file, overwrites, read_loop, each_place, advance_others, move_at,
}
use stardictd.Libs.Next.Plain.{read_plain, for_each, advance_plain, move_plain}

-- No dictionary of this process has two places.
abbrev pub IsOnce : List Place → Type 0
IsOnce mask =
    (k i : ℕ) (q p : Place)
    → get_elem? mask k ≡ some q
    → get_elem? mask i ≡ some p
    → q.0.type_of ≡ local_dict
    → p.0.type_of ≡ local_dict
    → q.0.index ≡ p.0.index
    → k ≡ i

module _ (mask : List Place) (once : IsOnce mask) where
  same_file-IsOnce : (k i : ℕ) → same_file mask k i ≡ true → k ≡ i
  unfolding same_file
  same_file-IsOnce k i e = elim (Option-cases (get_elem? mask k)) [
    | inl absent ↦ absurd (ground (arith, e, absent))
    | inr (q, at) ↦ elim (Option-cases (get_elem? mask i)) [
      | inl absent ↦ absurd (ground (arith, e, at, absent))
      | inr (p, at') ↦
          let both : (q.0.type_of ≡ local_dict)
              × (p.0.type_of ≡ local_dict)
              × (q.0.index ≡ p.0.index) =
            ground (arith, e, at, at') in
          once k i q p at at' both.0 both.1 both.2
    ]
  ]

  apart : (k i : ℕ) → (i == k) ≡ false → same_file mask k i ≡ false
  apart k i e = elim (Bool-cases (same_file mask k i)) [
    | inr differs ↦ differs
    | inl same ↦ let equal = same_file-IsOnce k i same in absurd (ground (arith, e, equal))
  ]

  -- A word of this kind was held at an earlier place.
  abbrev pub IsEarlier : Held → ℕ → Bool → Type 0
  IsEarlier held i is_lib = (h : Bytes × ℕ × Bool) → held ≡ some h → h.2 ≡ is_lib → h.1 < i

  overwrites_lem :
      (held : Held) (i : ℕ) (is_lib : Bool)
      → IsEarlier held i is_lib
      → overwrites mask held i is_lib ≡ false
  overwrites_lem none i is_lib h = refl
  overwrites_lem (some (w, k, true)) i false h = refl
  overwrites_lem (some (w, k, false)) i true h = refl
  overwrites_lem (some (w, k, true)) i true h =
      let earlier = h (w, k, true) refl refl in apart k i (ground (arith, earlier))
  overwrites_lem (some (w, k, false)) i false h =
      let earlier = h (w, k, false) refl refl in apart k i (ground (arith, earlier))

module _ (collate : Comparison) where
  hold-IsEarlier :
      (held : Held) (c : Option Bytes) (i : ℕ) (is_lib : Bool) (h : Bytes × ℕ × Bool)
      → ((g : Bytes × ℕ × Bool) → held ≡ some g → g.2 ≡ is_lib → g.1 < i)
      → hold collate held c i is_lib ≡ some h
      → h.2 ≡ is_lib
      → h.1 < suc i
  unfolding hold
  hold-IsEarlier held none i is_lib h before e kind =
      let earlier = before h e kind in omega (arith, earlier)
  hold-IsEarlier none (some w) i is_lib h before e kind =
      let place : h.1 ≡ i = ground (arith, e) in omega (arith, place)
  hold-IsEarlier (some g) (some w) i is_lib h before e kind = by_order (collate g.0 w) refl
    where
      by_order : (o : Ordering) → collate g.0 w ≡ o → h.1 < suc i
      by_order Ordering.gt k = let place : h.1 ≡ i = ground (arith, e, k) in omega (arith, place)
      by_order Ordering.lt k =
          let same : some g ≡ some h = ground (arith, e, k) in
          let earlier = before h same kind in omega (arith, earlier)
      by_order Ordering.eq k =
          let same : some g ≡ some h = ground (arith, e, k) in
          let earlier = before h same kind in omega (arith, earlier)

module _ (mask : List Place) (once : IsOnce mask) where
  -- The loops that look for a word.
  pub read_loop-read_plain :
      (collate : Comparison) (seek : Place → Option Place) (read : Place → Option (Option Bytes))
      (is_lib : Bool) (i : ℕ) (ps : List Place) (held : Held)
      → ((h : Bytes × ℕ × Bool) → held ≡ some h → h.2 ≡ is_lib → h.1 < i)
      → read_loop mask collate seek read is_lib i ps held
        ≡ read_plain collate seek read is_lib i ps held
  unfolding read_loop read_plain
  read_loop-read_plain collate seek read is_lib i [] held before = refl
  read_loop-read_plain collate seek read is_lib i (p ∷ ps) held before =
      let fine = overwrites_lem mask once held i is_lib before in
      by_place (seek p) refl fine λ c.
        read_loop-read_plain collate seek read is_lib (suc i) ps (hold collate held c i is_lib)
          (λ h. hold-IsEarlier collate held c i is_lib h before)
    where
      by_place :
          (o : Option Place)
          → seek p ≡ o
          → overwrites mask held i is_lib ≡ false
          → ((c : Option Bytes)
              → read_loop mask collate seek read is_lib (suc i) ps (hold collate held c i is_lib)
                ≡ read_plain collate seek read is_lib (suc i) ps (hold collate held c i is_lib))
          → read_loop mask collate seek read is_lib i (p ∷ ps) held
            ≡ read_plain collate seek read is_lib i (p ∷ ps) held
      by_place none e fine rest = ground (arith, e)
      by_place (some p') e fine rest = elim (Option-cases (read p')) [
        | inl unread ↦ ground (arith, e, unread)
        | inr (c, at) ↦ let same = rest c in rw (e, at, fine) (rw same refl)
      ]

  abbrev readable : List Place → Option (List Place × Bool)
  readable ps = some (ps, true)

  -- A loop that leaves the word readable.
  each_place-for_each :
      (f : ℕ → Place → Bool → Option (Place × Bool)) (g : ℕ → Place → Option Place)
      → ((n : ℕ) (p : Place) → f n p true ≡ (g n p >>= λ p'. some (p', true)))
      → (i : ℕ) (ps : List Place)
      → each_place f i ps true ≡ (for_each g i ps >>= λ ps'. some (ps', true))
  unfolding each_place for_each
  each_place-for_each f g same i [] = refl
  each_place-for_each f g same i (p ∷ ps) =
      ground (arith, same i p, each_place-for_each f g same (suc i) ps)

  others_lem :
      (read : Place → Option (Option Bytes)) (move : Place → Option Place) (word : Bytes)
      (is_here : Bool) (k n : ℕ) (p : Place)
      → advance_others mask read move word is_here k n p true
        ≡ (advance_plain read move word is_here k n p >>= λ p'. some (p', true))
  unfolding advance_others advance_plain
  others_lem read move word false k n p = refl
  others_lem read move word true k n p = elim (Bool-cases (n == k)) [
    | inl here ↦ ground (arith, here)
    | inr other ↦ let fine = apart mask once k n other in ground (arith, other, fine)
  ]

  moved_lem :
      (move : Place → Option Place) (k i : ℕ) (ps : List Place) (fresh : Bool)
      → (each_place (move_at move k) i ps fresh >>= λ r. some r.0)
        ≡ for_each (move_plain move k) i ps
  unfolding each_place for_each move_at move_plain
  moved_lem move k i [] fresh = refl
  moved_lem move k i (p ∷ ps) fresh =
      ground (arith, moved_lem move k (suc i) ps fresh, moved_lem move k (suc i) ps false)

  module _ {B : Type 0} (word_at synonym_at : Place → Option (Option Bytes))
      (move_word move_synonym : Place → Option Place) (word : Bytes) (k : ℕ) (is_lib : Bool)
      (K : List Place → Option B) where
    move_last :
        (move : Place → Option Place) (ps : List Place) (fresh : Bool)
        → (each_place (move_at move k) 0 ps fresh >>= λ r. K r.0)
          ≡ (for_each (move_plain move k) 0 ps >>= K)
    move_last move ps fresh = by_result (each_place (move_at move k) 0 ps fresh) refl
      where
        by_result :
            (o : Option (List Place × Bool))
            → each_place (move_at move k) 0 ps fresh ≡ o
            → (o >>= λ r. K r.0) ≡ (for_each (move_plain move k) 0 ps >>= K)
        by_result none e = rw (← moved_lem move k 0 ps fresh, e) refl
        by_result (some r) e = rw (← moved_lem move k 0 ps fresh, e) refl

    -- The three loops behind the search.
    pub loops-for_each :
        (ps : List Place)
        → (each_place (advance_others mask word_at move_word word is_lib k) 0 ps true >>= λ r1.
            each_place (advance_others mask synonym_at move_synonym word (not is_lib) k) 0 r1.0 r1.1
            >>= λ r2.
                each_place (move_at (if is_lib then move_word else move_synonym) k) 0 r2.0 r2.1
                >>= λ r3. K r3.0)
          ≡ (for_each (advance_plain word_at move_word word is_lib k) 0 ps >>= λ ps1.
              for_each (advance_plain synonym_at move_synonym word (not is_lib) k) 0 ps1 >>= λ ps2.
              for_each (move_plain (if is_lib then move_word else move_synonym) k) 0 ps2 >>= K)
    loops-for_each ps =
        let first =
          each_place-for_each (advance_others mask word_at move_word word is_lib k)
            (advance_plain word_at move_word word is_lib k)
            (others_lem word_at move_word word is_lib k) 0 ps in
        rw first (by_first (for_each (advance_plain word_at move_word word is_lib k) 0 ps))
      where
        by_second :
            (o : Option (List Place))
            → ((o >>= readable) >>= λ r2.
                each_place (move_at (if is_lib then move_word else move_synonym) k) 0 r2.0 r2.1
                >>= λ r3. K r3.0)
              ≡ (o >>= λ ps2.
                  for_each (move_plain (if is_lib then move_word else move_synonym) k) 0 ps2 >>= K)
        by_second none = refl
        by_second (some ps2) = move_last (if is_lib then move_word else move_synonym) ps2 true

        by_first :
            (o : Option (List Place))
            → ((o >>= readable) >>= λ r1.
                each_place
                  (advance_others mask synonym_at move_synonym word (not is_lib) k)
                  0
                  r1.0
                  r1.1
                >>= λ r2.
                    each_place (move_at (if is_lib then move_word else move_synonym) k) 0 r2.0 r2.1
                    >>= λ r3. K r3.0)
              ≡ (o >>= λ ps1.
                  for_each (advance_plain synonym_at move_synonym word (not is_lib) k) 0 ps1
                  >>= λ ps2.
                      for_each (move_plain (if is_lib then move_word else move_synonym) k) 0 ps2
                      >>= K)
        by_first none = refl
        by_first (some ps1) =
            let second =
              each_place-for_each (advance_others mask synonym_at move_synonym word (not is_lib) k)
                (advance_plain synonym_at move_synonym word (not is_lib) k)
                (others_lem synonym_at move_synonym word (not is_lib) k) 0 ps1 in
            rw second (
              by_second
                (for_each (advance_plain synonym_at move_synonym word (not is_lib) k) 0 ps1))
