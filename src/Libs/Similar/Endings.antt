-- ===== src/Libs/Similar/Endings.antt =====
-- The English forms, one after the other (source_codes/stardictd/src/lib/stddict.cpp, the second half
-- of `Libs::LookupSimilarWord`).
use stardictd.Base.{
  ℕ, ◌-◌, ◌<◌, Bool, true, false, ◌&&◌, ◌||◌, [], ◌∷◌, ◌++◌, ◌≡◌, inl, inr, refl, sym, ap, ◌∙◌,
  subst, none, some, Bytes, codes, ltb, ltb→lt, length, length-append, take, take_append, arith,
}
use stardictd.Base.Int.{ℤ}
use stardictd.Libs.Least.{Among}
use stardictd.Libs.Similar.{
  Cases, Speller, Search, ends_in, cut, before_es, is_pure_english, try_form, cut_s_or_d, cut_ly,
  cut_ing, cut_es, cut_ed, cut_ied, cut_ies, cut_er, cut_est, other_forms, other_cases,
}
use stardictd.Libs.Similar.Forms.{
  Form, plain_endings, cut_ending, cut_d, sibilant_es, sibilant_es_capital, cut_d_capital, put_e,
  put_e_capital, put_y, put_y_capital, ends_in_lem, or_lem, and_lem, before_es_lem,
}
use stardictd.Libs.Similar.Found.{
  IsOther, IsHit, IsBacked, either-IsBacked, try_form-IsBacked, try_cut-IsBacked, ending-IsBacked,
  try_other-IsBacked,
}

module _ (c : Cases) (d : Speller) (s_word : Bytes) (Answer : ℤ → Type 0)
    (hit : (w : Bytes) → IsOther c d s_word w → (d.lookup w).0 ≡ true → Answer (d.lookup w).1) where
  -- "s", or the "d" of "ed".
  cut_s_or_d-IsBacked :
      (s : Search)
      → IsBacked c d s_word Answer hit s
      → IsBacked c d s_word Answer hit (cut_s_or_d c d s_word s)
  unfolding cut_s_or_d
  cut_s_or_d-IsBacked s h =
      either-IsBacked c d s_word Answer hit
        (ltb 1 (length s_word)
          && ((ends_in s_word (codes "S") || ends_in s_word (codes "ED"))
              || ends_in s_word (codes "s")
              || ends_in s_word (codes "ed")))
        (try_form c d s_word (ends_in s_word (codes "S") || ends_in s_word (codes "ED"))
          (cut c d s_word 1) s)
        s
        (λ e.
          let (long, one) = and_lem (ltb 1 (length s_word)) _ e in
          try_form-IsBacked c d s_word Answer hit _ (cut c d s_word 1) s
            (form (ltb→lt 1 (length s_word) long) one) h)
        (λ e. h)
    where
      s_form :
          (e : Bytes)
          → length e ≡ 1
          → Among e plain_endings
          → ends_in s_word e ≡ true
          → Form s_word (cut c d s_word 1)
      s_form e one among k =
          cut_ending (cut c d s_word 1) e among
            (ends_in_lem s_word e k ∙ ap (λ n. take (length s_word - n) s_word ++ e) one)

      -- The front behind "ed" without its last letter.
      d_parts :
          (x y : ℕ)
          → 1 < length s_word
          → ends_in s_word (x ∷ y ∷ []) ≡ true
          → take (length s_word - 2) s_word ++ x ∷ [] ≡ cut c d s_word 1
      d_parts x y long k =
          let front = take (length s_word - 2) s_word in
          let parts : s_word ≡ front ++ x ∷ y ∷ [] = ends_in_lem s_word (x ∷ y ∷ []) k in
          let size = ap length parts ∙ length-append front (x ∷ y ∷ []) in
          sym (
            ap (λ t. take (length s_word - 1) t) parts
            ∙ take_append front (x ∷ y ∷ []) (length s_word - 1) 1 (omega (arith, size)))

      form :
          1 < length s_word
          → ((ends_in s_word (codes "S") || ends_in s_word (codes "ED"))
              || ends_in s_word (codes "s")
              || ends_in s_word (codes "ed"))
            ≡ true
          → Form s_word (cut c d s_word 1)
      form long e = elim (or_lem _ _ e) [
        | inr k ↦
            subst (Form s_word) (d_parts 101 100 long k)
              (cut_d _ (ends_in_lem s_word (codes "ed") k))
        | inl e1 ↦ elim (or_lem _ _ e1) [
          | inr k ↦ s_form (codes "s") refl (inl refl) k
          | inl e2 ↦ elim (or_lem _ _ e2) [
            | inl k ↦ s_form (codes "S") refl (inr (inl refl)) k
            | inr k ↦
                subst (Form s_word) (d_parts 69 68 long k)
                  (cut_d_capital _ (ends_in_lem s_word (codes "ED") k))
          ]
        ]
      ]

  cut_es-IsBacked :
      (s : Search)
      → IsBacked c d s_word Answer hit s
      → IsBacked c d s_word Answer hit (cut_es c d s_word s)
  unfolding cut_es
  cut_es-IsBacked s h =
      either-IsBacked c d s_word Answer hit (ltb 3 (length s_word) && (in_capitals || in_small))
        (try_form c d s_word in_capitals (cut c d s_word 2) s) s
        (λ e.
          let (long, one) = and_lem (ltb 3 (length s_word)) (in_capitals || in_small) e in
          try_form-IsBacked c d s_word Answer hit in_capitals (cut c d s_word 2) s
            (form (ltb→lt 3 (length s_word) long) one) h)
        (λ e. h)
    where
      in_capitals : Bool
      in_capitals =
          ends_in s_word (codes "ES") && before_es c d s_word b'S' b'X' b'O' b'H' b'C' b'S'

      in_small : Bool
      in_small = ends_in s_word (codes "es") && before_es c d s_word b's' b'x' b'o' b'h' b'c' b's'

      form : 3 < length s_word → (in_capitals || in_small) ≡ true → Form s_word (cut c d s_word 2)
      form long e = elim (or_lem in_capitals in_small e) [
        | inl k ↦
            let (ends, letters) = and_lem (ends_in s_word (codes "ES")) _ k in
            let (base, tail, among, front) =
              before_es_lem s_word b'S' b'X' b'O' b'H' b'C' b'S' long letters in
            subst (Form s_word) (sym front) (
              sibilant_es_capital base tail among
                (ends_in_lem s_word (codes "ES") ends ∙ ap (λ t. t ++ codes "ES") front))
        | inr k ↦
            let (ends, letters) = and_lem (ends_in s_word (codes "es")) _ k in
            let (base, tail, among, front) =
              before_es_lem s_word b's' b'x' b'o' b'h' b'c' b's' long letters in
            subst (Form s_word) (sym front) (
              sibilant_es base tail among
                (ends_in_lem s_word (codes "es") ends ∙ ap (λ t. t ++ codes "es") front))
      ]

  plain :
      (u : Bool) (k : ℕ) (e : Bytes) (t : Search)
      → Among e plain_endings
      → s_word ≡ take (length s_word - k) s_word ++ e
      → IsBacked c d s_word Answer hit t
      → IsBacked c d s_word Answer hit (try_form c d s_word u (cut c d s_word k) t)
  plain u k e t among parts h =
      try_form-IsBacked c d s_word Answer hit u (cut c d s_word k) t (cut_ending _ e among parts) h

  cut_ing-IsBacked :
      (s : Search)
      → IsBacked c d s_word Answer hit s
      → IsBacked c d s_word Answer hit (cut_ing c d s_word s)
  unfolding cut_ing
  cut_ing-IsBacked s h =
      ending-IsBacked c d s_word Answer hit 3 (codes "ING") (codes "ing") _ s
        (λ t e k.
          let parts = ends_in_lem s_word (codes "ING") e in
          try_form-IsBacked c d s_word Answer hit true _ _ (put_e_capital _ parts) (
            try_cut-IsBacked c d s_word Answer hit true 3 (codes "ING") t
              (inr (inr (inr (inl refl)))) (inr (inr (inr (inr (inr (inl refl)))))) parts k))
        (λ t e k.
          let parts = ends_in_lem s_word (codes "ing") e in
          try_form-IsBacked c d s_word Answer hit false _ _ (put_e _ parts) (
            try_cut-IsBacked c d s_word Answer hit false 3 (codes "ing") t (inr (inr (inl refl)))
              (inr (inr (inr (inr (inl refl))))) parts k))
        h

  pub other_forms-IsBacked :
      (s : Search)
      → IsBacked c d s_word Answer hit s
      → IsBacked c d s_word Answer hit (other_forms c d s_word s)
  unfolding other_forms cut_ly cut_ed cut_ied cut_ies cut_er cut_est
  other_forms-IsBacked s h =
      let ly =
        ending-IsBacked c d s_word Answer hit 2 (codes "LY") (codes "ly") _ _
          (λ t e k.
            try_cut-IsBacked c d s_word Answer hit true 2 (codes "LY") t (inr (inl refl))
              (inr (inr (inr (inl refl)))) (ends_in_lem s_word (codes "LY") e) k)
          (λ t e k.
            try_cut-IsBacked c d s_word Answer hit false 2 (codes "ly") t (inl refl)
              (inr (inr (inl refl))) (ends_in_lem s_word (codes "ly") e) k)
          (cut_s_or_d-IsBacked s h) in
      let es = cut_es-IsBacked _ (cut_ing-IsBacked _ ly) in
      let ed =
        ending-IsBacked c d s_word Answer hit 3 (codes "ED") (codes "ed") _ _
          (λ t e k.
            try_cut-IsBacked c d s_word Answer hit true 2 (codes "ED") t
              (inr (inr (inr (inr (inr (inl refl))))))
              (inr (inr (inr (inr (inr (inr (inr (inl refl))))))))
              (ends_in_lem s_word (codes "ED") e) k)
          (λ t e k.
            try_cut-IsBacked c d s_word Answer hit false 2 (codes "ed") t
              (inr (inr (inr (inr (inl refl))))) (inr (inr (inr (inr (inr (inr (inl refl)))))))
              (ends_in_lem s_word (codes "ed") e) k)
          es in
      let ied =
        ending-IsBacked c d s_word Answer hit 3 (codes "IED") (codes "ied") _ _
          (λ t e k.
            try_form-IsBacked c d s_word Answer hit true _ t
              (put_y_capital _ _ (inl refl) (ends_in_lem s_word (codes "IED") e)) k)
          (λ t e k.
            try_form-IsBacked c d s_word Answer hit false _ t
              (put_y _ _ (inl refl) (ends_in_lem s_word (codes "ied") e)) k)
          ed in
      let ies =
        ending-IsBacked c d s_word Answer hit 3 (codes "IES") (codes "ies") _ _
          (λ t e k.
            try_form-IsBacked c d s_word Answer hit true _ t
              (put_y_capital _ _ (inr (inl refl)) (ends_in_lem s_word (codes "IES") e)) k)
          (λ t e k.
            try_form-IsBacked c d s_word Answer hit false _ t
              (put_y _ _ (inr (inl refl)) (ends_in_lem s_word (codes "ies") e)) k)
          ied in
      let er =
        ending-IsBacked c d s_word Answer hit 2 (codes "ER") (codes "er") _ _
          (λ t e k.
            plain true 2 (codes "ER") t
              (inr (inr (inr (inr (inr (inr (inr (inr (inr (inl refl))))))))))
              (ends_in_lem s_word (codes "ER") e) k)
          (λ t e k.
            plain false 2 (codes "er") t (inr (inr (inr (inr (inr (inr (inr (inr (inl refl)))))))))
              (ends_in_lem s_word (codes "er") e) k)
          ies in
      let est =
        ending-IsBacked c d s_word Answer hit 3 (codes "EST") (codes "est") _ _
          (λ t e k.
            plain true 3 (codes "EST") t
              (inr (inr (inr (inr (inr (inr (inr (inr (inr (inr (inr (inl refl))))))))))))
              (ends_in_lem s_word (codes "EST") e) k)
          (λ t e k.
            plain false 3 (codes "est") t
              (inr (inr (inr (inr (inr (inr (inr (inr (inr (inr (inl refl)))))))))))
              (ends_in_lem s_word (codes "est") e) k)
          er in
      either-IsBacked c d s_word Answer hit (is_pure_english s_word) _ s (λ e. est) (λ e. h)

  pub other_cases-IsBacked :
      (s : Search)
      → IsBacked c d s_word Answer hit s
      → IsBacked c d s_word Answer hit (other_cases c d s_word s)
  unfolding other_cases
  other_cases-IsBacked s h =
      try_other-IsBacked c d s_word Answer hit _ s_word _ (inl (inr (inr refl))) (
        try_other-IsBacked c d s_word Answer hit _ s_word _ (inl (inr (inl refl)))
          (try_other-IsBacked c d s_word Answer hit _ s_word s (inl (inl refl)) h))

module _ (c : Cases) (d : Speller) (s_word : Bytes) where
  -- When the lookups of the other cases and of the other English forms of a word find an index, `Lookup`
  -- gives that index for the word in small letters, in capitals or with a capital, or for what is left
  -- of it when an ending is cut (with a doubled consonant made single, or with the letter that the
  -- ending has swallowed put back), as it is or in small letters.
  pub other_forms-IsOther :
      (g g' i : ℤ)
      → other_forms c d s_word (other_cases c d s_word (none, g)) ≡ (some i, g')
      → (w : Bytes) × IsOther c d s_word w × IsHit c d s_word w i
  other_forms-IsOther g g' i e =
      let Answer : ℤ → Type 0 = λ j. (w : Bytes) × IsOther c d s_word w × IsHit c d s_word w j in
      let hit : (w : Bytes) → IsOther c d s_word w → (d.lookup w).0 ≡ true → Answer (d.lookup w).1 =
        λ w other found. (w, other, (found, refl)) in
      other_forms-IsBacked c d s_word Answer hit (other_cases c d s_word (none, g))
        (other_cases-IsBacked c d s_word Answer hit (none, g) (λ j k. absurd (cc k))) i
        (ap (λ s. s.0) e)
