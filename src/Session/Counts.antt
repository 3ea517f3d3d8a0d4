-- ===== src/Session/Counts.antt =====
-- Bounds on what a request asks for (source_codes/stardictd/src/daemon.cpp).
use stardictd.Base.{
  ℕ, ◌≤◌, Bool, true, false, List, [], ◌∷◌, ◌≡◌, refl, subst, Option, none, some, Bytes, arith, All,
  eqb,
}
use stardictd.Base.Int.{ℤ, pos, negsuc}
use stardictd.Base.Decimal.{atoi}
use stardictd.Session.Requests.{
  Request, Form, no_words, one_word, two_words, three_words, word_and_count, chosen, select_form,
  forms, parse_request, clamp,
}

-- A count of words from 1 to `most`.
abbrev pub IsCount : ℕ → ℤ → Type 0
IsCount most (pos n) = (1 ≤ n) × (n ≤ most)
IsCount most (negsuc n) = ⊥

abbrev pub InRange : Request → Type 0
InRange (Request.lookup word n) = IsCount 100 n
InRange (Request.next word n) = IsCount 100 n
InRange (Request.previous word n) = IsCount 50 n
InRange _ = Unit

clamp-IsCount : (n : ℤ) (most : ℕ) → 1 ≤ most → IsCount most (clamp n most)
unfolding clamp
clamp-IsCount (pos n) most h = ground arith
clamp-IsCount (negsuc n) most h = ground arith

-- Every request that a form gives satisfies `P`.
abbrev Gives : (Request → Type 0) → Form → Type 0
Gives P form = (words : List Bytes) (r : Request) → form words ≡ some r → P r

chosen-P :
    (P : Request → Type 0) (form : Form) (words : List Bytes)
    → Gives P form
    → (b : Bool) (o : Option Request) (later : Request) → form words ≡ o
    → P later
    → P (chosen b o later)
chosen-P P form words h true (some r) later e p = h words r e
chosen-P P form words h true none later e p = p
chosen-P P form words h false o later e p = p

select_form-Gives :
    (P : Request → Type 0)
    → P Request.unknown_command
    → (fs : List (Bytes × Form)) → All (λ f. Gives P f.1) fs
    → (name : Bytes) (words : List Bytes) → P (select_form fs name words)
unfolding select_form
select_form-Gives P p [] h name words = p
select_form-Gives P p (f ∷ fs) h name words =
    chosen-P P f.1 words h.0 (eqb name f.0) (f.1 words) (select_form fs name words) refl
      (select_form-Gives P p fs h.1 name words)

module _ (P : Request → Type 0) where
  no_words-Gives : (r : Request) → P r → Gives P (no_words r)
  no_words-Gives r p words r' e = subst P (ground (arith, e)) p

  one_word-Gives : (f : Bytes → Request) → ((a : Bytes) → P (f a)) → Gives P (one_word f)
  one_word-Gives f p [] r e = absurd (cc e)
  one_word-Gives f p (a ∷ words) r e = subst P (ground (arith, e)) (p a)

  two_words-Gives :
      (f : Bytes → Bytes → Request) → ((a b : Bytes) → P (f a b)) → Gives P (two_words f)
  two_words-Gives f p (a ∷ b ∷ words) r e = subst P (ground (arith, e)) (p a b)
  two_words-Gives f p _ r e = absurd (cc e)

  three_words-Gives :
      (f : Bytes → Bytes → Bytes → Request)
      → ((a b c : Bytes) → P (f a b c))
      → Gives P (three_words f)
  three_words-Gives f p (a ∷ b ∷ c ∷ words) r e = subst P (ground (arith, e)) (p a b c)
  three_words-Gives f p _ r e = absurd (cc e)

  word_and_count-Gives :
      (f : Bytes → ℤ → Request) (most usual : ℕ)
      → 1 ≤ most
      → IsCount most (pos usual)
      → ((a : Bytes) (n : ℤ) → IsCount most n → P (f a n))
      → Gives P (word_and_count f most usual)
  word_and_count-Gives f most usual h u p [] r e = absurd (cc e)
  word_and_count-Gives f most usual h u p (a ∷ []) r e =
      subst P (ground (arith, e)) (p a (pos usual) u)
  word_and_count-Gives f most usual h u p (a ∷ n ∷ words) r e =
      subst P (ground (arith, e)) (p a (clamp (atoi n) most) (clamp-IsCount (atoi n) most h))

-- Whatever the words of a line, the handlers `daemon_lookup` and `daemon_next` are given a count
-- from 1 to 100, and `daemon_previous` one from 1 to 50.
pub parse_request-InRange : (args : List Bytes) → InRange (parse_request args)
unfolding parse_request
parse_request-InRange [] = tt
parse_request-InRange (name ∷ words) =
    select_form-Gives InRange tt forms
      (
        two_words-Gives InRange _ (λ a b. tt),
        (
          two_words-Gives InRange _ (λ a b. tt),
          (
            word_and_count-Gives InRange Request.lookup 100 30 (omega arith)
                (omega arith, omega arith) (λ a n h. h),
            (
              one_word-Gives InRange _ (λ a. tt),
              (
                one_word-Gives InRange _ (λ a. tt),
                (
                  two_words-Gives InRange _ (λ a b. tt),
                  (
                    one_word-Gives InRange _ (λ a. tt),
                    (
                      word_and_count-Gives InRange Request.previous 50 15 (omega arith)
                          (omega arith, omega arith) (λ a n h. h),
                      (
                        word_and_count-Gives InRange Request.next 100 30 (omega arith)
                            (omega arith, omega arith) (λ a n h. h),
                        (
                          no_words-Gives InRange _ tt,
                          (
                            three_words-Gives InRange _ (λ a b c. tt),
                            (
                              three_words-Gives InRange _ (λ a b c. tt),
                              (
                                one_word-Gives InRange _ (λ a. tt),
                                (
                                  no_words-Gives InRange _ tt,
                                  (
                                    one_word-Gives InRange _ (λ a. tt),
                                    (
                                      no_words-Gives InRange _ tt,
                                      (
                                        one_word-Gives InRange _ (λ a. tt),
                                        (
                                          no_words-Gives InRange _ tt,
                                          (
                                            one_word-Gives InRange _ (λ a. tt),
                                            (
                                              no_words-Gives InRange _ tt,
                                              (
                                                no_words-Gives InRange _ tt,
                                                (
                                                  no_words-Gives InRange _ tt,
                                                  (
                                                    one_word-Gives InRange _ (λ a. tt),
                                                    (
                                                      one_word-Gives InRange _ (λ a. tt),
                                                      (
                                                        three_words-Gives InRange _ (λ a b c. tt),
                                                        (
                                                          no_words-Gives InRange _ tt,
                                                          (
                                                            one_word-Gives InRange _ (λ a. tt),
                                                            (
                                                            one_word-Gives InRange _ (λ a. tt),
                                                            (no_words-Gives InRange _ tt, tt),
                                                            ),
                                                          ),
                                                        ),
                                                      ),
                                                    ),
                                                  ),
                                                ),
                                              ),
                                            ),
                                          ),
                                        ),
                                      ),
                                    ),
                                  ),
                                ),
                              ),
                            ),
                          ),
                        ),
                      ),
                    ),
                  ),
                ),
              ),
            ),
          ),
        ),
      )
      name words
