-- ===== src/Tests/Collations.antt =====
-- A collation of a file of two words, made on demand
-- (source_codes/stardictd/src/lib/stddict.cpp, `idxsyn_file::collate_load`).
use stardictd.Base.{
  ℕ, zero, suc, ◌<◌, ◌≤◌, ◌≡◌, ◌≢◌, refl, arith, List, [], ◌∷◌, some, none, codes, true, replicate,
  get_elem?, ◌>>=◌,
}
use stardictd.Base.Int.{pos}
use stardictd.Collation.Order.{IsRanking, sort_collation_index-IsRanking}
use stardictd.Collation.Sorted.{Sorts, IsFresh, collated_lookup_finds}
use stardictd.Collation.{
  IdxsynFile, key_of, indices_from, sort_collation_index, idxsyn_lookup, clt_index_to_orig,
  idxsyn_get_word, collate_load,
}
use stardictd.Compare.{Ordering, Comparison, stardict_collate, strcmp}
use stardictd.Tests.Platform.{casecmp, casecmp-IsPreorder, ascii_match}

abbrev insert : (ℕ → ℕ → Ordering) → ℕ → List ℕ → List ℕ
insert cmp x [] = x ∷ []
insert cmp x (y ∷ ys) = elim (cmp x y) [ Ordering.gt ↦ y ∷ insert cmp x ys | _ ↦ x ∷ y ∷ ys ]

abbrev insertion_sort : (ℕ → ℕ → Ordering) → List ℕ → List ℕ
insertion_sort cmp [] = []
insertion_sort cmp (x ∷ xs) = insert cmp x (insertion_sort cmp xs)

abbrev collate : ℕ → Comparison
collate func = casecmp

abbrev two_words : IdxsynFile
two_words = record {
  wordcount = 2;
  get_key = get_elem? (codes "Beta" ∷ codes "alpha" ∷ []);
  lookup = λ str. none;
  clt_file = none;
  clt_files = replicate 21 none;
}

abbrev by_alphabet : ℕ → ℕ → Ordering
by_alphabet = sort_collation_index collate two_words 3

sorted_table : insertion_sort by_alphabet (indices_from 0 2) ≡ 1 ∷ 0 ∷ []
unfolding sort_collation_index stardict_collate strcmp
sorted_table = refl

in_table : (j a : ℕ) → get_elem? (1 ∷ 0 ∷ []) j ≡ some a → a < 2
in_table zero a h = ground arith
in_table (suc zero) a h = ground arith
in_table (suc (suc j)) a h = cc

table_ascends :
    (i j a b : ℕ)
    → i ≤ j
    → get_elem? (1 ∷ 0 ∷ []) i ≡ some a
    → get_elem? (1 ∷ 0 ∷ []) j ≡ some b
    → by_alphabet a b ≢ Ordering.gt
unfolding sort_collation_index stardict_collate strcmp
table_ascends zero zero a b le ha hb =
    let ea : a ≡ 1 = ground arith in let eb : b ≡ 1 = ground arith in rw (ea, eb) (λ e. cc)
table_ascends zero (suc zero) a b le ha hb =
    let ea : a ≡ 1 = ground arith in let eb : b ≡ 0 = ground arith in rw (ea, eb) (λ e. cc)
table_ascends (suc i) zero a b le ha hb = absurd (omega arith)
table_ascends (suc zero) (suc zero) a b le ha hb =
    let ea : a ≡ 0 = ground arith in let eb : b ≡ 0 = ground arith in rw (ea, eb) (λ e. cc)
table_ascends (suc (suc i)) j a b le ha hb = cc
table_ascends i (suc (suc j)) a b le ha hb = cc

table_has : (a : ℕ) → a < 2 → (j : ℕ) × (get_elem? (1 ∷ 0 ∷ []) j ≡ some a)
table_has zero lt = (1, refl)
table_has (suc zero) lt = (0, refl)
table_has (suc (suc a)) lt = absurd (omega arith)

insertion_sort-Sorts : Sorts insertion_sort by_alphabet 2
insertion_sort-Sorts = record {
  size = rw sorted_table refl;
  kept = λ a lt. rw sorted_table (table_has a lt);
  within = λ j a h. in_table j a (rw sorted_table at h);
  ascends = λ i j a b ranking le ha hb.
      table_ascends i j a b le (rw sorted_table at ha) (rw sorted_table at hb);
}

two_words-IsFresh : IsFresh two_words 3
two_words-IsFresh = record {
  reads = reads;
  has_word = omega arith;
  small = omega arith;
  empty = refl;
}
  where
    reads : (i : ℕ) → i < 2 → two_words.get_key i ≡ some (key_of two_words i)
    reads zero lt = refl
    reads (suc zero) lt = refl
    reads (suc (suc i)) lt = absurd (omega arith)

collated_runs :
    (idxsyn_get_word collate insertion_sort (λ c. none) two_words 0 2 4 >>= λ r. some (r.1))
    ≡ some (codes "alpha")
unfolding idxsyn_get_word collate_load sort_collation_index stardict_collate strcmp
collated_runs = refl

sort_collation_index-IsRanking_example : IsRanking (sort_collation_index collate two_words 3) 2
sort_collation_index-IsRanking_example =
    sort_collation_index-IsRanking collate two_words 3 casecmp-IsPreorder 2 (omega arith)

collated_lookup_finds_example :
    (t : IdxsynFile) × (m : ℕ) × (o : ℕ) × (idxsyn_lookup collate insertion_sort
        (λ c. none)
        ascii_match
        two_words
        (key_of two_words 1)
        2
        4
      ≡ some (t, record { found = true; idx = pos m; idx_suggest = pos m }))
    × (clt_index_to_orig collate insertion_sort (λ c. none) t (pos m) 2 4 ≡ some (t, pos o))
    × (two_words.get_key o ≡ some (key_of two_words 1))
collated_lookup_finds_example =
    collated_lookup_finds collate insertion_sort (λ c. none) ascii_match two_words 3
      casecmp-IsPreorder refl two_words-IsFresh insertion_sort-Sorts 1 (omega arith)
