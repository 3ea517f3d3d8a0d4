-- ===== src/Dict/Walk.antt =====
-- The previous and the next word of a dictionary (source_codes/stardictd/src/lib/stddict.cpp,
-- `Dict::GetWordPrev` and `Dict::GetWordNext`).
use native.Mathlib.Decide.{ℕ_discrete}
use stardictd.Base.{
  ℕ, zero, suc, ◌+◌, ◌-◌, ◌≤◌, ◌<◌, ◌≡◌, ◌≢◌, refl, ◌∙◌, sym, ap, arith, Bool, true, false, Option,
  some, Bytes, if◌then◌else◌,
}
use stardictd.Base.Int.{ℤ, pos}
use stardictd.Compare.{Ordering, strcmp}
use stardictd.Compare.Order.{strcmp_self, strcmp_identical}
use stardictd.Dict.{walk_back, walk_on, get_word_prev, get_word_next}
use stardictd.Dict.Reads.{Reads}
use stardictd.Lookup.{invalid_index}

-- From `q` to `i` the words are the same.
abbrev pub Same : (ℕ → Bytes) → ℕ → ℕ → ℕ → Type 0
Same word i q n = (k : ℕ) → q ≤ k → k ≤ n → word k ≡ word i

-- The previous word: the last one before `i` that differs from the word at `i`; or there is none,
-- since the words from 0 on are the same.
pub data IsPrevious (word : ℕ → Bytes) (i : ℕ) (found : Bool) (pidx : ℤ) : Type 0 where
  earlier :
      (j : ℕ)
      → j < i
      → word j ≢ word i
      → Same word i (j + 1) i
      → found ≡ true
      → pidx ≡ pos j
      → IsPrevious word i found pidx
  no_earlier : Same word i 0 i → found ≡ false → pidx ≡ pos 0 → IsPrevious word i found pidx

-- The next word: the first one behind `i` that differs; or the words up to the last are the same.
pub data IsNext (word : ℕ → Bytes) (count i : ℕ) (idx : ℤ) : Type 0 where
  later :
      (j : ℕ)
      → i < j
      → j < count
      → word j ≢ word i
      → Same word i i (j - 1)
      → idx ≡ pos j
      → IsNext word count i idx
  no_later : Same word i i (count - 1) → idx ≡ invalid_index → IsNext word count i idx

-- How the two loops stop.
record StopsBack (word : ℕ → Bytes) (i : ℕ) (found : Bool) (q : ℕ) : Type 0 where
  bounded : q ≤ i
  same : Same word i q i
  differs : found ≡ true → (0 < q) × (word (q - 1) ≢ word i)
  at_first : found ≡ false → q ≡ 0

record StopsOn (word : ℕ → Bytes) (count i : ℕ) (found : Bool) (q : ℕ) : Type 0 where
  bounded : i ≤ q
  inside : q < count
  same : Same word i i q
  differs : found ≡ true → (q + 1 < count) × (word (q + 1) ≢ word i)
  at_last : found ≡ false → q ≡ count - 1

module _ {S : Type 0} (get_word : S → ℕ → Option (S × Bytes)) (count : ℕ) (word : ℕ → Bytes)
    (holds : S → Type 0) (file : Reads get_word count word holds) (i : ℕ) (small : i < count) where
  abbrev EndsBack : Option (S × Bool × ℕ) → Type 0
  EndsBack o =
      (t : S) × (found : Bool) × (q : ℕ) × (o ≡ some (t, found, q))
      × holds t
      × StopsBack word i found q

  abbrev EndsOn : Option (S × Bool × ℕ) → Type 0
  EndsOn o =
      (t : S) × (found : Bool) × (q : ℕ) × (o ≡ some (t, found, q))
      × holds t
      × StopsOn word count i found q

  pub differ :
      (k : ℕ) (o : Ordering) → strcmp (word k) (word i) ≡ o → o ≢ Ordering.eq → word k ≢ word i
  differ k o h ne e =
      let same : strcmp (word k) (word i) ≡ Ordering.eq = rw e (strcmp_self (word i)) in
      ne (sym h ∙ same)

  pub widen_back :
      (p : ℕ) → Same word i (suc p) i → strcmp (word p) (word i) ≡ Ordering.eq → Same word i p i
  widen_back p same h k le lt = elim (ℕ_discrete k p) [
    | yes e ↦ rw e (strcmp_identical (word p) (word i) h)
    | no ne ↦ same k (omega arith) lt
  ]

  pub widen_on :
      (q : ℕ)
      → Same word i i q
      → strcmp (word (q + 1)) (word i) ≡ Ordering.eq
      → Same word i i (q + 1)
  widen_on q same h k le lt = elim (ℕ_discrete k (q + 1)) [
    | yes e ↦ rw e (strcmp_identical (word (q + 1)) (word i) h)
    | no ne ↦ same k le (omega arith)
  ]

  stop_back :
      (t : S) (p : ℕ)
      → holds t
      → p < i
      → Same word i (suc p) i
      → word p ≢ word i
      → EndsBack (some (t, true, suc p))
  stop_back t p ht lt same ne = (
    t,
    true,
    suc p,
    refl,
    ht,
    record {
      bounded = omega arith;
      same = same;
      differs = λ e. let back : suc p - 1 ≡ p = omega arith in (omega arith, rw back ne);
      at_first = λ e. cc;
    },
  )

  stop_on :
      (t : S) (q : ℕ)
      → holds t
      → i ≤ q
      → q + 1 < count
      → Same word i i q
      → word (q + 1) ≢ word i
      → EndsOn (some (t, true, q))
  stop_on t q ht le lt same ne = (
    t,
    true,
    q,
    refl,
    ht,
    record {
      bounded = le;
      inside = omega arith;
      same = same;
      differs = λ e. (lt, ne);
      at_last = λ e. cc;
    },
  )

  branch_back :
      (t : S) (p : ℕ) (o : Ordering) (further : Option (S × Bool × ℕ))
      → holds t
      → p < i
      → Same word i (suc p) i
      → strcmp (word p) (word i) ≡ o
      → (o ≡ Ordering.eq → EndsBack further)
      → EndsBack (elim o [ Ordering.eq ↦ further | _ ↦ some (t, true, suc p) ])
  branch_back t p Ordering.eq further ht lt same h go = go refl
  branch_back t p Ordering.lt further ht lt same h go =
      stop_back t p ht lt same (differ p _ h (λ e. cc))
  branch_back t p Ordering.gt further ht lt same h go =
      stop_back t p ht lt same (differ p _ h (λ e. cc))

  walk_back_lem :
      (s : S) (p : ℕ)
      → holds s
      → p ≤ i
      → Same word i p i
      → EndsBack (walk_back get_word (word i) s p)
  unfolding walk_back
  walk_back_lem s zero hs le same = (
    s,
    false,
    0,
    refl,
    hs,
    record { bounded = le; same = same; differs = λ e. cc; at_first = λ e. refl },
  )
  walk_back_lem s (suc p) hs le same =
      let (t, runs, ht) = file.read s p hs (omega arith) in
      rw runs (
        branch_back t p (strcmp (word p) (word i)) _ ht (omega arith) same refl
          (λ e. walk_back_lem t p ht (omega arith) (widen_back p same e)))

  branch_on :
      (t : S) (q : ℕ) (o : Ordering) (further : Option (S × Bool × ℕ))
      → holds t
      → i ≤ q
      → q + 1 < count
      → Same word i i q
      → strcmp (word (q + 1)) (word i) ≡ o
      → (o ≡ Ordering.eq → EndsOn further)
      → EndsOn (elim o [ Ordering.eq ↦ further | _ ↦ some (t, true, q) ])
  branch_on t q Ordering.eq further ht le lt same h go = go refl
  branch_on t q Ordering.lt further ht le lt same h go =
      stop_on t q ht le lt same (differ (q + 1) _ h (λ e. cc))
  branch_on t q Ordering.gt further ht le lt same h go =
      stop_on t q ht le lt same (differ (q + 1) _ h (λ e. cc))

  walk_on_lem :
      (left : ℕ) (s : S) (q : ℕ)
      → holds s
      → i ≤ q
      → q + left + 1 ≡ count
      → Same word i i q
      → EndsOn (walk_on get_word (word i) left s q)
  unfolding walk_on
  walk_on_lem zero s q hs le size same = (
    s,
    false,
    q,
    refl,
    hs,
    record {
      bounded = le;
      inside = omega arith;
      same = same;
      differs = λ e. cc;
      at_last = λ e. omega arith;
    },
  )
  walk_on_lem (suc left) s q hs le size same =
      let (t, runs, ht) = file.read s (q + 1) hs (omega arith) in
      rw runs (
        branch_on t q (strcmp (word (q + 1)) (word i)) _ ht le (omega arith) same refl
          (λ e. walk_on_lem left t (q + 1) ht (omega arith) (omega arith) (widen_on q same e)))

  pub itself : Same word i i i
  itself k le lt = let e : k ≡ i = omega arith in ap word e

  -- In a file whose words can all be read, `GetWordPrev` returns, for every index of the file: the
  -- index of the previous word that differs, or 0 and a failure when there is none.
  pub get_word_prev-IsPrevious :
      (s : S)
      → holds s
      → (t : S) × (found : Bool) × (pidx : ℤ) × (get_word_prev get_word count s (pos i)
          ≡ some (t, found, pidx))
        × holds t
        × IsPrevious word i found pidx
  unfolding get_word_prev
  get_word_prev-IsPrevious s hs =
      let (s1, runs, h1) = file.read s i hs small in
      let (t, found, q, walked, ht, stops) = walk_back_lem s1 i h1 (omega arith) itself in
      (
        t,
        found,
        (if found then pos (q - 1) else pos q),
        rw runs (rw walked refl),
        ht,
        answer found q stops,
      )
    where
      answer :
          (found : Bool) (q : ℕ)
          → StopsBack word i found q
          → IsPrevious word i found (if found then pos (q - 1) else pos q)
      answer true q stops =
          let (room, ne) = stops.differs refl in
          let size : q - 1 + 1 ≡ q = omega arith in
          IsPrevious.earlier (q - 1) (omega (arith, stops.bounded)) ne (rw size stops.same) refl
            refl
      answer false q stops =
          let first = stops.at_first refl in
          IsPrevious.no_earlier (rw (← first) stops.same) refl (ap pos first)

  -- In a file whose words can all be read, `GetWordNext` returns, for every index of the file: the
  -- index of the next word that differs, or `INVALID_INDEX` when there is none.
  pub get_word_next-IsNext :
      (s : S)
      → holds s
      → (t : S) × (idx : ℤ) × (get_word_next get_word count s i ≡ some (t, idx))
        × holds t
        × IsNext word count i idx
  unfolding get_word_next
  get_word_next-IsNext s hs =
      let (s1, runs, h1) = file.read s i hs small in
      let (t, found, q, walked, ht, stops) =
        walk_on_lem (count - 1 - i) s1 i h1 (omega arith) (omega arith) itself in
      (
        t,
        (if found then pos (q + 1) else invalid_index),
        rw runs (rw walked refl),
        ht,
        answer found q stops,
      )
    where
      answer :
          (found : Bool) (q : ℕ)
          → StopsOn word count i found q
          → IsNext word count i (if found then pos (q + 1) else invalid_index)
      answer true q stops =
          let (room, ne) = stops.differs refl in
          let back : q + 1 - 1 ≡ q = omega arith in
          IsNext.later (q + 1) (omega (arith, stops.bounded)) room ne (rw back stops.same) refl
      answer false q stops =
          let last = stops.at_last refl in IsNext.no_later (rw (← last) stops.same) refl
