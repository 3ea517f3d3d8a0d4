-- ===== src/Libs/Similar/Found.antt =====
-- What an index stands for that a lookup of other spellings gives
-- (source_codes/stardictd/src/lib/stddict.cpp, `Libs`).
use stardictd.Base.{
  ℕ, suc, ◌+◌, ◌-◌, Bool, true, false, not, ◌&&◌, ◌||◌, [], ◌∷◌, ◌++◌, append_assoc, ◌≡◌, ◌⊎◌, inl,
  inr, refl, sym, ap, ◌∙◌, subst, none, some, Bytes, eqb, ltb, ltb→lt, if◌then◌else◌, ◌==◌, ==_iff,
  length, take, drop, get_elem?, arith,
}
use stardictd.Base.Int.{ℤ}
use stardictd.Libs.Least.{Among}
use stardictd.Libs.Similar.{
  Cases, Speller, Search, ends_in, from_end, is_vowel, cut, is_doubled, try, try_other, try_form,
  try_cut, ending,
}
use stardictd.Libs.Similar.Forms.{
  Form, plain_endings, doubling_endings, cut_ending, cut_doubled, from_end_lem, front_suc, and_lem,
}

module _ (c : Cases) (d : Speller) (s_word : Bytes) where
  -- The word in another case: small letters, capitals, or a capital before small letters.
  abbrev pub IsCased : Bytes → Type 0
  IsCased w =
      (w ≡ c.utf8_strdown s_word)
      ⊎ ((w ≡ c.utf8_strup s_word)
          ⊎ (w
              ≡ c.utf8_strup (take (c.first_char s_word) s_word)
                ++ c.utf8_strdown (drop (c.first_char s_word) s_word)))

  -- The word without its English ending, as it is or in small letters.
  abbrev pub IsForm : Bytes → Type 0
  IsForm w = Form s_word w ⊎ ((v : Bytes) × Form s_word v × (w ≡ c.ascii_strdown v))

  abbrev pub IsOther : Bytes → Type 0
  IsOther w = IsCased w ⊎ IsForm w

  -- `Lookup` finds the index for this text.
  abbrev pub IsHit : Bytes → ℤ → Type 0
  IsHit w i = ((d.lookup w).0 ≡ true) × ((d.lookup w).1 ≡ i)

  -- `Lookup` gives the index for the word or another spelling of it, or the word there differs from the
  -- one that was given in case only.
  abbrev pub IsAnswer : ℤ → Type 0
  IsAnswer i =
      ((w : Bytes) × ((w ≡ s_word) ⊎ IsOther w) × IsHit w i)
      ⊎ ((w : Bytes) × (d.get_word i ≡ some w) × (d.casecmp w s_word ≡ true))

module _ (c : Cases) (d : Speller) (s_word : Bytes) (Answer : ℤ → Type 0)
    (hit : (w : Bytes) → IsOther c d s_word w → (d.lookup w).0 ≡ true → Answer (d.lookup w).1) where
  abbrev pub IsBacked : Search → Type 0
  IsBacked s = (i : ℤ) → s.0 ≡ some i → Answer i

  pub either-IsBacked :
      (b : Bool) (s t : Search)
      → (b ≡ true → IsBacked s)
      → (b ≡ false → IsBacked t)
      → IsBacked (if b then s else t)
  either-IsBacked true s t hs ht = hs refl
  either-IsBacked false s t hs ht = ht refl

  tried :
      (w : Bytes) (g : ℤ) (b : Bool)
      → IsOther c d s_word w
      → (d.lookup w).0 ≡ b
      → IsBacked (try c d s_word w (none, g))
  unfolding try
  tried w g true other e i k =
      let same : (d.lookup w).1 ≡ i = ground (arith, e, k) in subst Answer same (hit w other e)
  tried w g false other e i k = absurd (ground (arith, e, k))

  try-IsBacked :
      (w : Bytes) (s : Search) → IsOther c d s_word w → IsBacked s → IsBacked (try c d s_word w s)
  unfolding try
  try-IsBacked w (some i, g) other h = h
  try-IsBacked w (none, g) other h = tried w g _ other refl

  pub try_other-IsBacked :
      (a w : Bytes) (s : Search)
      → IsOther c d s_word a
      → IsBacked s
      → IsBacked (try_other c d s_word a w s)
  unfolding try_other
  try_other-IsBacked a w s other h =
      either-IsBacked (eqb a w) s (try c d s_word a s) (λ e. h) (λ e. try-IsBacked a s other h)

  pub try_form-IsBacked :
      (u : Bool) (w : Bytes) (s : Search)
      → Form s_word w
      → IsBacked s
      → IsBacked (try_form c d s_word u w s)
  unfolding try_form
  try_form-IsBacked u w s form h =
      let first = try-IsBacked w s (inr (inl form)) h in
      either-IsBacked (u || elim s_word [ [] ↦ false | a ∷ rest ↦ c.ascii_isupper a ])
        (try_other c d s_word (c.ascii_strdown w) w (try c d s_word w s)) (try c d s_word w s)
        (λ e.
          try_other-IsBacked (c.ascii_strdown w) w (try c d s_word w s) (inr (inr (w, form, refl)))
            first)
        (λ e. first)

  -- The form behind a doubled consonant.
  doubled-Form :
      (k : ℕ) (e : Bytes)
      → Among e doubling_endings
      → s_word ≡ take (length s_word - k) s_word ++ e
      → is_doubled c d s_word k ≡ true
      → Form s_word (cut c d s_word (k + 1))
  doubled-Form k e among parts h =
      let (longer, vowel) =
        and_lem
          (ltb (k + 3) (length s_word)
            && from_end s_word (k + 1)
                (λ a. from_end s_word (k + 2) (λ b. a == b && not (is_vowel b))))
          _ h in
      let (long, twice) = and_lem (ltb (k + 3) (length s_word)) _ longer in
      let bound = ltb→lt (k + 3) (length s_word) long in
      let (a, at, next) =
        from_end_lem s_word (k + 1) (λ a. from_end s_word (k + 2) (λ b. a == b && not (is_vowel b)))
          twice in
      let (b, at', same) = from_end_lem s_word (k + 2) (λ b. a == b && not (is_vowel b)) next in
      let (equal, consonant) = and_lem (a == b) (not (is_vowel b)) same in
      let a_is : a ≡ b = (==_iff a b).0 equal in
      let stem = take (length s_word - suc (suc k)) s_word in
      let front : take (length s_word - k) s_word ≡ take (length s_word - suc k) s_word ++ a ∷ [] =
        front_suc s_word k a (omega (arith, bound))
          (subst (λ n. get_elem? s_word (length s_word - n) ≡ some a) (omega arith) at) in
      let front' : take (length s_word - suc k) s_word ≡ stem ++ b ∷ [] =
        front_suc s_word (suc k) b (omega (arith, bound))
          (subst (λ n. get_elem? s_word (length s_word - n) ≡ some b) (omega arith) at') in
      let parted : s_word ≡ stem ++ b ∷ b ∷ e =
        parts
        ∙ ap (λ t. t ++ e) front
        ∙ ap (λ t. (t ++ a ∷ []) ++ e) front'
        ∙ ap (λ x. ((stem ++ b ∷ []) ++ x ∷ []) ++ e) a_is
        ∙ append_assoc (stem ++ b ∷ []) (b ∷ []) e
        ∙ append_assoc stem (b ∷ []) (b ∷ e) in
      let index : take (length s_word - suc k) s_word ≡ cut c d s_word (k + 1) =
        ap (λ n. take (length s_word - n) s_word) (omega arith) in
      subst (Form s_word) (sym front' ∙ index)
        (cut_doubled stem e b among (ground (arith, consonant)) parted)

  pub try_cut-IsBacked :
      (u : Bool) (k : ℕ) (e : Bytes) (s : Search)
      → Among e doubling_endings
      → Among e plain_endings
      → s_word ≡ take (length s_word - k) s_word ++ e
      → IsBacked s
      → IsBacked (try_cut c d s_word u k s)
  unfolding try_cut
  try_cut-IsBacked u k e s doubling plain parts h =
      let once = try_form c d s_word u (cut c d s_word (k + 1)) s in
      try_form-IsBacked u (cut c d s_word k) (if is_doubled c d s_word k then once else s)
        (cut_ending _ e plain parts)
        (either-IsBacked (is_doubled c d s_word k) once s
          (λ twice. try_form-IsBacked u _ s (doubled-Form k e doubling parts twice) h)
          (λ single. h))

  -- The word has the ending for which the step is taken.
  pub ending-IsBacked :
      (min : ℕ) (upper lower : Bytes) (act : Bool → Search → Search) (s : Search)
      → ((t : Search) → ends_in s_word upper ≡ true → IsBacked t → IsBacked (act true t))
      → ((t : Search) → ends_in s_word lower ≡ true → IsBacked t → IsBacked (act false t))
      → IsBacked s
      → IsBacked (ending c d s_word min upper lower act s)
  unfolding ending
  ending-IsBacked min upper lower act s uppers lowers h =
      either-IsBacked (ltb min (length s_word) && (ends_in s_word upper || ends_in s_word lower))
        (act (ends_in s_word upper) s) s acted (λ e. h)
    where
      by_case :
          (u : Bool)
          → ends_in s_word upper ≡ u
          → (u || ends_in s_word lower) ≡ true
          → IsBacked (act u s)
      by_case true e k = uppers s e h
      by_case false e k = lowers s k h

      acted :
          (ltb min (length s_word) && (ends_in s_word upper || ends_in s_word lower)) ≡ true
          → IsBacked (act (ends_in s_word upper) s)
      acted e = by_case (ends_in s_word upper) refl (and_lem (ltb min (length s_word)) _ e).1
