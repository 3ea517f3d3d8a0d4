-- ===== src/Collation/Sorted.antt =====
-- Lookups by a collation that was made on demand (source_codes/stardictd/src/lib/stddict.cpp,
-- `idxsyn_file::collate_load`, `idxsyn_file::Lookup`, `Libs::CltIndexToOrig`).
use native.Mathlib.Decide.{dec_lt}
use stardictd.Base.{
  ℕ, zero, suc, ◌+◌, ◌-◌, ◌≤◌, ◌<◌, ◌^◌, ◌≡◌, ◌≢◌, refl, ◌∙◌, sym, arith, List, [], ◌∷◌, Option,
  none, some, Bytes, true, false, length, get_elem?, get_or, get_elem?-eq-get_or, get_elem?-lt, set,
  ◌==◌,
}
use stardictd.Base.Int.{pos}
use stardictd.Collation.Order.{IsRanking, sort_collation_index-IsRanking, keys_ascend}
use stardictd.Collation.{
  CollationFile, IdxsynFile, get_word, indices_from, key_of, sort_collation_index, collation_lookup,
  new_collation, collate_load, idxsyn_lookup, clt_index_to_orig, select,
}
use stardictd.Compare.{Ordering, Comparison, stardict_collate}
use stardictd.Compare.Order.{IsPreorder, IsOrder, stardict_collate-IsOrder}
use stardictd.Lookup.{LookupResult}
use stardictd.Lookup.Flat.{Located, lookup-Located}
use stardictd.Lookup.Search.{IsSorted, Splits}

-- What glib documents of `g_qsort_with_data`: it rearranges the array, and the result ascends by
-- the comparison, if that is one by which the numbers can be ordered.
pub record Sorts (qsort : (ℕ → ℕ → Ordering) → List ℕ → List ℕ) (cmp : ℕ → ℕ → Ordering) (n : ℕ)
    : Type 0 where
  pub size : length (qsort cmp (indices_from 0 n)) ≡ n
  pub kept : (a : ℕ) → a < n → (j : ℕ) × (get_elem? (qsort cmp (indices_from 0 n)) j ≡ some a)
  pub within : (j a : ℕ) → get_elem? (qsort cmp (indices_from 0 n)) j ≡ some a → a < n
  pub ascends :
      (i j a b : ℕ)
      → IsRanking cmp n
      → i ≤ j
      → get_elem? (qsort cmp (indices_from 0 n)) i ≡ some a
      → get_elem? (qsort cmp (indices_from 0 n)) j ≡ some b
      → cmp a b ≢ Ordering.gt

-- An index file whose keys can all be read and whose collations have not been made.
pub record IsFresh (f : IdxsynFile) (c : ℕ) : Type 0 where
  pub reads : (i : ℕ) → i < f.wordcount → f.get_key i ≡ some (key_of f i)
  pub has_word : 0 < f.wordcount
  pub small : f.wordcount ≤ 2 ^ 31
  pub empty : get_elem? f.clt_files c ≡ some none

get_elem?-set :
    (xs : List (Option CollationFile)) (i : ℕ) (x y : Option CollationFile)
    → get_elem? xs i ≡ some y
    → get_elem? (set xs i x) i ≡ some x
get_elem?-set [] i x y h = cc
get_elem?-set (z ∷ xs) zero x y h = refl
get_elem?-set (z ∷ xs) (suc i) x y h = get_elem?-set xs i x y h

some-injective : (a b : ℕ) → some a ≡ some b → a ≡ b
some-injective a b e = cc

module _ (utf8_collate : ℕ → Comparison) (g_qsort_with_data : (ℕ → ℕ → Ordering) → List ℕ → List ℕ)
    (load_cache : ℕ → Option (List ℕ)) (prefix_match : Bytes → Bytes → ℕ) (f : IdxsynFile) (c : ℕ)
    (pre : IsPreorder (utf8_collate c)) (uncached : load_cache c ≡ none) (fresh : IsFresh f c)
    (sorts : Sorts g_qsort_with_data (sort_collation_index utf8_collate f c) f.wordcount) where
  abbrev made : CollationFile
  made = record {
    collate_function = c;
    wordoffset =
        g_qsort_with_data (sort_collation_index utf8_collate f c) (indices_from 0 f.wordcount);
  }

  abbrev holding : IdxsynFile
  holding = record f { clt_files = set f.clt_files c (some made) }

  -- The original index at a place of the table.
  abbrev orig : ℕ → ℕ
  orig j = get_or made.wordoffset j 0

  orig_lem : (j : ℕ) → j < f.wordcount → get_elem? made.wordoffset j ≡ some (orig j)
  orig_lem j lt = get_elem?-eq-get_or made.wordoffset j 0 (omega (arith, sorts.size))

  orig-lt : (j : ℕ) → j < f.wordcount → orig j < f.wordcount
  orig-lt j lt = sorts.within j (orig j) (orig_lem j lt)

  made-IsSorted :
      IsSorted
        (stardict_collate utf8_collate c)
        (get_word holding made)
        (λ j. key_of f (orig j))
        f.wordcount
  unfolding get_word
  made-IsSorted = record {
    reads = λ j lt. rw (orig_lem j lt) (fresh.reads (orig j) (orig-lt j lt));
    ascends = λ i j le lt. keys_ascend utf8_collate f c (orig i) (orig j) (
        sorts.ascends i j (orig i) (orig j)
          (sort_collation_index-IsRanking utf8_collate f c pre f.wordcount fresh.small) le
          (orig_lem i (omega arith)) (orig_lem j lt));
  }

  collate_load_lem : collate_load utf8_collate g_qsort_with_data load_cache f c ≡ some holding
  unfolding collate_load new_collation
  collate_load_lem = rw fresh.empty (rw uncached refl)

  -- The collation stays: it is not made again.
  collate_load_again :
      collate_load utf8_collate g_qsort_with_data load_cache holding c ≡ some holding
  unfolding collate_load
  collate_load_again = rw (get_elem?-set f.clt_files c (some made) none fresh.empty) refl

  select_lem :
      select utf8_collate g_qsort_with_data load_cache f 2 (c + 1) ≡ some (holding, some made)
  unfolding select
  select_lem =
      let back : c + 1 - 1 ≡ c = omega arith in
      let chosen : (c + 1 == 0) ≡ false = ground arith in
      rw (chosen, back, collate_load_lem)
        (rw (get_elem?-set f.clt_files c (some made) none fresh.empty) refl)

  select_again :
      select utf8_collate g_qsort_with_data load_cache holding 2 (c + 1) ≡ some (holding, some made)
  unfolding select
  select_again =
      let back : c + 1 - 1 ≡ c = omega arith in
      let chosen : (c + 1 == 0) ≡ false = ground arith in
      rw (chosen, back, collate_load_again)
        (rw (get_elem?-set f.clt_files c (some made) none fresh.empty) refl)

  order : IsOrder (stardict_collate utf8_collate c)
  order = stardict_collate-IsOrder utf8_collate c pre

  missing_place :
      (i from j : ℕ)
      → Splits
          (stardict_collate utf8_collate c)
          (λ j. key_of f (orig j))
          f.wordcount
          (key_of f i)
          from
      → j < f.wordcount
      → orig j ≡ i
      → ⊥
  missing_place i from j splits inside e =
      let same : stardict_collate utf8_collate c (key_of f i) (key_of f (orig j)) ≡ Ordering.eq =
        rw e (order.self (key_of f i)) in
      elim (dec_lt j from) [
        | yes below ↦ ground (arith, same, splits.0 j below)
        | no above ↦ ground (arith, same, splits.1 j (omega arith) inside)
      ]

  missing :
      (i : ℕ)
      → i < f.wordcount
      → (from : ℕ)
      → Splits
          (stardict_collate utf8_collate c)
          (λ j. key_of f (orig j))
          f.wordcount
          (key_of f i)
          from
      → ⊥
  missing i lt from splits =
      let (j, at) = sorts.kept i lt in
      let inside : j < f.wordcount =
        omega (arith, get_elem?-lt made.wordoffset j i at, sorts.size) in
      missing_place i from j splits inside
        (some-injective (orig j) i (sym (orig_lem j inside) ∙ at))

  -- A word of the file that is looked up is found at a place of the table.
  found_lem :
      (i : ℕ) (r : LookupResult)
      → i < f.wordcount
      → Located
          (stardict_collate utf8_collate c)
          prefix_match
          (λ j. key_of f (orig j))
          f.wordcount
          (key_of f i)
          r
      → (m : ℕ) × (m < f.wordcount)
        × (key_of f (orig m) ≡ key_of f i)
        × (r ≡ record { found = true; idx = pos m; idx_suggest = pos m })
  found_lem i r lt (Located.at m inside same e) = (m, inside, same, e)
  found_lem i r lt (Located.between from s inside splits suggests e) =
      absurd (missing i lt from splits)
  found_lem i r lt (Located.past splits e) = absurd (missing i lt f.wordcount splits)

  -- If the collation function ranks the strings, glib sorts as documented, nothing is cached and the
  -- collation is not loaded, then for every word of a file with at most 2^31 words a lookup by the
  -- client's collation loads it and finds the word, and the index found leads back to an index of
  -- the file that holds the word.
  pub collated_lookup_finds :
      (i : ℕ)
      → i < f.wordcount
      → (t : IdxsynFile) × (m : ℕ) × (o : ℕ) × (idxsyn_lookup utf8_collate g_qsort_with_data
            load_cache prefix_match f
            (key_of f i)
            2
            (c + 1)
          ≡ some (t, record { found = true; idx = pos m; idx_suggest = pos m }))
        × (clt_index_to_orig utf8_collate g_qsort_with_data load_cache t (pos m) 2 (c + 1)
            ≡ some (t, pos o))
        × (f.get_key o ≡ some (key_of f i))
  unfolding idxsyn_lookup clt_index_to_orig collation_lookup
  collated_lookup_finds i lt =
      let (r, runs, located) =
        lookup-Located order prefix_match (get_word holding made) (λ j. key_of f (orig j))
          f.wordcount made-IsSorted (key_of f i) fresh.has_word in
      let (m, inside, same, e) = found_lem i r lt located in
      (
        holding,
        m,
        orig m,
        rw select_lem (rw runs (rw e refl)),
        rw select_again (rw (orig_lem m inside) refl),
        rw (← same) (fresh.reads (orig m) (orig-lt m inside)),
      )
