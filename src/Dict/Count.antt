-- ===== src/Dict/Count.antt =====
-- How often a word occurs around an index (source_codes/stardictd/src/lib/stddict.cpp,
-- `Dict::GetOrigWordCount`).
use native.Mathlib.Decide.{dec_lt}
use stardictd.Base.{
  ℕ, zero, suc, ◌+◌, ◌-◌, ◌≤◌, ◌<◌, ◌≡◌, ◌≢◌, refl, arith, ◌⊎◌, inl, inr, Option, some, Bytes,
}
use stardictd.Compare.{Ordering, strcmp}
use stardictd.Dict.{count_back, count_on, get_orig_word_count}
use stardictd.Dict.Reads.{Reads}
use stardictd.Dict.Walk.{Same, differ, widen_back, widen_on, itself}

-- The run of the word at `i`: `n` entries from `first` on, and neither neighbour has the word.
pub record IsRun (word : ℕ → Bytes) (count i first n : ℕ) : Type 0 where
  pub begins : first ≤ i
  pub reaches : i < first + n
  pub ends : first + n ≤ count
  pub same : Same word i first (first + n - 1)
  pub before : (first ≡ 0) ⊎ (word (first - 1) ≢ word i)
  pub behind : (first + n ≡ count) ⊎ (word (first + n) ≢ word i)

module _ {S : Type 0} (get_word : S → ℕ → Option (S × Bytes)) (count : ℕ) (word : ℕ → Bytes)
    (holds : S → Type 0) (file : Reads get_word count word holds) (i : ℕ) (small : i < count) where
  abbrev EndsBack : ℕ → Option (S × ℕ × ℕ) → Type 0
  EndsBack total o =
      (t : S) × (first : ℕ) × (n : ℕ) × (o ≡ some (t, first, n))
      × holds t
      × (first + n ≡ total)
      × (first ≤ i)
      × Same word i first i
      × ((first ≡ 0) ⊎ (word (first - 1) ≢ word i))

  stop_back :
      (t : S) (p n : ℕ)
      → holds t
      → p < i
      → Same word i (suc p) i
      → word p ≢ word i
      → EndsBack (suc p + n) (some (t, suc p, n))
  stop_back t p n ht lt same ne =
      let back : suc p - 1 ≡ p = omega arith in
      (t, suc p, n, refl, ht, refl, omega arith, same, inr (rw back ne))

  branch_back :
      (t : S) (p n : ℕ) (o : Ordering) (further : Option (S × ℕ × ℕ))
      → holds t
      → p < i
      → Same word i (suc p) i
      → strcmp (word p) (word i) ≡ o
      → (o ≡ Ordering.eq → EndsBack (suc p + n) further)
      → EndsBack (suc p + n) (elim o [ Ordering.eq ↦ further | _ ↦ some (t, suc p, n) ])
  branch_back t p n Ordering.eq further ht lt same h go = go refl
  branch_back t p n Ordering.lt further ht lt same h go =
      stop_back t p n ht lt same (differ get_word count word holds file i small p _ h (λ e. cc))
  branch_back t p n Ordering.gt further ht lt same h go =
      stop_back t p n ht lt same (differ get_word count word holds file i small p _ h (λ e. cc))

  count_back_lem :
      (s : S) (p n : ℕ)
      → holds s
      → p ≤ i
      → Same word i p i
      → EndsBack (p + n) (count_back get_word (word i) s p n)
  unfolding count_back
  count_back_lem s zero n hs le same = (s, 0, n, refl, hs, refl, le, same, inl refl)
  count_back_lem s (suc p) n hs le same =
      let (t, runs, ht) = file.read s p hs (omega arith) in
      let size : suc p + n ≡ p + (n + 1) = omega arith in
      rw runs (
        branch_back t p n (strcmp (word p) (word i)) _ ht (omega arith) same refl (λ e. rw size (
          count_back_lem t p (n + 1) ht (omega arith)
            (widen_back get_word count word holds file i small p same e))))

  abbrev EndsOn : ℕ → ℕ → Option (S × ℕ) → Type 0
  EndsOn q n o =
      (t : S) × (m : ℕ) × (more : ℕ) × (o ≡ some (t, m))
      × holds t
      × (m ≡ n + more)
      × (q + more < count)
      × Same word i i (q + more)
      × ((q + more + 1 ≡ count) ⊎ (word (q + more + 1) ≢ word i))

  stop_on :
      (t : S) (q n : ℕ)
      → holds t
      → q + 1 < count
      → Same word i i q
      → word (q + 1) ≢ word i
      → EndsOn q n (some (t, n))
  stop_on t q n ht lt same ne =
      let none_more : q + 0 ≡ q = omega arith in
      (t, n, 0, refl, ht, omega arith, omega arith, rw none_more same, inr (rw none_more ne))

  further_on : (q n : ℕ) (o : Option (S × ℕ)) → EndsOn (q + 1) (n + 1) o → EndsOn q n o
  further_on q n o (t, m, more, runs, ht, total, inside, same, behind) =
      let shift : q + 1 + more ≡ q + (more + 1) = omega arith in
      (t, m, more + 1, runs, ht, omega arith, omega arith, rw (← shift) same, rw (← shift) behind)

  branch_on :
      (t : S) (q n : ℕ) (o : Ordering) (further : Option (S × ℕ))
      → holds t
      → q + 1 < count
      → Same word i i q
      → strcmp (word (q + 1)) (word i) ≡ o
      → (o ≡ Ordering.eq → EndsOn (q + 1) (n + 1) further)
      → EndsOn q n (elim o [ Ordering.eq ↦ further | _ ↦ some (t, n) ])
  branch_on t q n Ordering.eq further ht lt same h go = further_on q n further (go refl)
  branch_on t q n Ordering.lt further ht lt same h go =
      stop_on t q n ht lt same (differ get_word count word holds file i small (q + 1) _ h (λ e. cc))
  branch_on t q n Ordering.gt further ht lt same h go =
      stop_on t q n ht lt same (differ get_word count word holds file i small (q + 1) _ h (λ e. cc))

  count_on_lem :
      (left : ℕ) (s : S) (q n : ℕ)
      → holds s
      → i ≤ q
      → q + left + 1 ≡ count
      → Same word i i q
      → EndsOn q n (count_on get_word (word i) left s q n)
  unfolding count_on
  count_on_lem zero s q n hs le size same =
      let none_more : q + 0 ≡ q = omega arith in
      (s, n, 0, refl, hs, omega arith, omega arith, rw none_more same, inl (omega arith))
  count_on_lem (suc left) s q n hs le size same =
      let (t, runs, ht) = file.read s (q + 1) hs (omega arith) in
      rw runs (
        branch_on t q n (strcmp (word (q + 1)) (word i)) _ ht (omega arith) same refl (λ e.
          count_on_lem left t (q + 1) (n + 1) ht (omega arith) (omega arith)
            (widen_on get_word count word holds file i small q same e)))

  -- In a file whose words can all be read, `GetOrigWordCount` returns, for every index of the file,
  -- the first index and the length of the run of equal words around it.
  pub get_orig_word_count-IsRun :
      (s : S)
      → holds s
      → (t : S) × (first : ℕ) × (n : ℕ) × (get_orig_word_count get_word count s i
          ≡ some (t, first, n))
        × holds t
        × IsRun word count i first n
  unfolding get_orig_word_count
  get_orig_word_count-IsRun s hs =
      let here = itself get_word count word holds file i small in
      let (s1, runs, h1) = file.read s i hs small in
      let (s2, first, n, backed, h2, total, begins, back, before) =
        count_back_lem s1 i 1 h1 (omega arith) here in
      let (t, m, more, on, ht, sum, inside, ahead, behind) =
        count_on_lem (count - 1 - i) s2 i n h2 (omega arith) (omega arith) here in
      let end : first + m ≡ i + more + 1 = omega arith in
      (
        t,
        first,
        m,
        rw runs (rw backed (rw on refl)),
        ht,
        record {
          begins = begins;
          reaches = omega arith;
          ends = omega arith;
          same = λ k le lt. joined first more m end back ahead k le lt;
          before = before;
          behind = rw end behind;
        },
      )
    where
      joined :
          (first more m : ℕ)
          → first + m ≡ i + more + 1
          → Same word i first i
          → Same word i i (i + more)
          → Same word i first (first + m - 1)
      joined first more m end back ahead k le lt = elim (dec_lt k i) [
        | yes below ↦ back k le (omega arith)
        | no above ↦ ahead k (omega arith) (omega arith)
      ]
