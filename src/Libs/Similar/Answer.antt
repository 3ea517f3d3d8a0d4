-- ===== src/Libs/Similar/Answer.antt =====
-- What the index stands for that `SimpleLookupWord` gives
-- (source_codes/stardictd/src/lib/stddict.cpp, `Libs`).
use stardictd.Base.{
  ℕ, zero, suc, ◌+◌, Bool, true, false, ◌≡◌, inl, inr, refl, subst, none, some, ◌>>=◌, Bytes,
  if◌then◌else◌, ◌==◌, arith, Option-cases, Bool-cases,
}
use stardictd.Base.Int.{ℤ, pos, negsuc}
use stardictd.Libs.Similar.{
  Cases, Speller, Search, other_cases, walk_same, same_here, near, lookup_similar_word,
  simple_lookup_word,
}
use stardictd.Libs.Similar.Found.{IsOther, IsAnswer}
use stardictd.Libs.Similar.Endings.{other_forms-IsBacked, other_cases-IsBacked}

module _ (c : Cases) (d : Speller) (s_word : Bytes) where
  abbrev hit :
      (w : Bytes)
      → IsOther c d s_word w
      → (d.lookup w).0 ≡ true
      → IsAnswer c d s_word (d.lookup w).1
  hit w other found = inl (w, inr other, (found, refl))

  abbrev IsBacked : Search → Type 0
  IsBacked s = (i : ℤ) → s.0 ≡ some i → IsAnswer c d s_word i

  -- Where the loop over equal words stands when it has found one.
  abbrev IsSame : Bool × ℤ → Type 0
  IsSame r = r.0 ≡ true → IsAnswer c d s_word r.1

  walk_same-IsSame :
      (left : ℕ) (found : Bool) (idx : ℤ) (r : Bool × ℤ)
      → IsSame (found, idx)
      → walk_same c d s_word left found idx ≡ some r
      → IsSame r
  unfolding walk_same
  walk_same-IsSame zero found idx r h e = absurd (cc e)
  walk_same-IsSame (suc left) found idx r h e = elim (Bool-cases (d.get_word_prev idx).0) [
    | inr over ↦ subst (λ x. IsSame x) (ground (arith, e, over)) h
    | inl more ↦ elim (Option-cases (d.get_word (d.get_word_prev idx).1)) [
      | inl unread ↦ absurd (ground (arith, e, more, unread))
      | inr (w, reads) ↦ elim (Bool-cases (d.casecmp w s_word)) [
        | inr other ↦ subst (λ x. IsSame x) (ground (arith, e, more, reads, other)) h
        | inl same ↦
            walk_same-IsSame left true (d.get_word_prev idx).1 r (λ t. inr (w, reads, same))
              (ground (arith, e, more, reads, same))
      ]
    ]
  ]

  same_at :
      (i j : ℤ)
      → (d.get_word i >>= λ w. some (if d.casecmp w s_word then some i else none)) ≡ some (some j)
      → IsAnswer c d s_word j
  same_at i j e = elim (Option-cases (d.get_word i)) [
    | inl unread ↦ absurd (ground (arith, e, unread))
    | inr (w, reads) ↦ elim (Bool-cases (d.casecmp w s_word)) [
      | inr other ↦ absurd (ground (arith, e, reads, other))
      | inl same ↦
          subst (λ x. IsAnswer c d s_word x) (ground (arith, e, reads, same)) (inr (w, reads, same))
    ]
  ]

  same_here-IsAnswer :
      (r : Bool × ℤ) (j : ℤ)
      → IsSame r
      → same_here c d s_word r ≡ some (some j)
      → IsAnswer c d s_word j
  unfolding same_here
  same_here-IsAnswer (true, idx) j h e =
      subst (λ x. IsAnswer c d s_word x) (ground (arith, e)) (h refl)
  same_here-IsAnswer (false, pos i) j h e = same_at (pos i) j e
  same_here-IsAnswer (false, negsuc n) j h e = elim (Bool-cases (n == 99)) [
    | inl marked ↦ absurd (ground (arith, e, marked))
    | inr other ↦ same_at (negsuc n) j (ground (arith, e, other))
  ]

  near-IsBacked :
      (idx : ℤ) (s t : Search) → IsBacked s → near c d s_word idx s ≡ some t → IsBacked t
  unfolding near
  near-IsBacked idx (some i, g) t h e = λ j k. h j (ground (arith, e, k))
  near-IsBacked idx (none, g) t h e =
      elim (Option-cases (walk_same c d s_word (d.wordcount + 2) false idx)) [
        | inl stuck ↦ absurd (ground (arith, e, stuck))
        | inr (r, walked) ↦ elim (Option-cases (same_here c d s_word r)) [
          | inl unread ↦ absurd (ground (arith, e, walked, unread))
          | inr (hit, here) ↦ λ j k.
              same_here-IsAnswer r j
                (walk_same-IsSame (d.wordcount + 2) false idx r (λ f. absurd (cc f)) walked)
                (ground (arith, e, walked, here, k))
        ]
      ]

  similar-IsAnswer :
      (idx idx_suggest i g : ℤ)
      → lookup_similar_word c d s_word idx idx_suggest ≡ some (some i, g)
      → IsAnswer c d s_word i
  unfolding lookup_similar_word
  similar-IsAnswer idx idx_suggest i g e =
      elim (Option-cases (near c d s_word idx (other_cases c d s_word (none, idx_suggest)))) [
        | inl stuck ↦ absurd (ground (arith, e, stuck))
        | inr (s, here) ↦
            other_forms-IsBacked c d s_word (IsAnswer c d s_word) hit s
              (near-IsBacked idx _ s
                (other_cases-IsBacked c d s_word (IsAnswer c d s_word) hit (none, idx_suggest)
                  (λ j k. absurd (cc k)))
                here)
              i (ground (arith, e, here))
      ]

  -- The index that `SimpleLookupWord` gives, whichever spelling it had to try, is one that `Lookup` gives
  -- for the word or for another case or English form of it, or the index of a word that `stardict_casecmp` takes for the given one.
  pub simple_lookup_word-IsAnswer :
      (i g : ℤ) → simple_lookup_word c d s_word ≡ some (some i, g) → IsAnswer c d s_word i
  unfolding simple_lookup_word
  simple_lookup_word-IsAnswer i g e = elim (Bool-cases (d.lookup s_word).0) [
    | inl found ↦ inl (s_word, inl refl, (found, ground (arith, e, found)))
    | inr missed ↦
        similar-IsAnswer (d.lookup s_word).1 (d.lookup s_word).2 i g (ground (arith, e, missed))
  ]
