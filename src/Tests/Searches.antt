-- ===== src/Tests/Searches.antt =====
-- The search and the backward scan on two keys in memory
-- (source_codes/stardictd/src/lib/stddict.cpp).
use stardictd.Base.{
  ℕ, zero, suc, ◌<◌, ◌≤◌, ◌≡◌, ◌≢◌, refl, arith, List, [], ◌∷◌, some, Bytes, codes, get_or,
  get_elem?,
}
use stardictd.Compare.{Ordering, stardict_strcmp, strcmp}
use stardictd.Compare.Order.{stardict_strcmp-IsOrder}
use stardictd.Lookup.{search, suggest}
use stardictd.Lookup.Search.{IsSorted, Finds, search-Finds}
use stardictd.Lookup.Suggest.{Suggests, matches, suggest-Suggests}
use stardictd.Tests.Platform.{casecmp, casecmp-IsPreorder, ascii_match}

abbrev two_keys : List Bytes
two_keys = codes "apple" ∷ codes "apply" ∷ []

abbrev key_of : ℕ → Bytes
key_of i = get_or two_keys i []

two_keys-IsSorted : IsSorted (stardict_strcmp casecmp) (get_elem? two_keys) key_of 2
unfolding stardict_strcmp strcmp
two_keys-IsSorted = record { reads = reads; ascends = ascends }
  where
    reads : (i : ℕ) → i < 2 → get_elem? two_keys i ≡ some (key_of i)
    reads zero lt = refl
    reads (suc zero) lt = refl
    reads (suc (suc i)) lt = absurd (omega arith)

    ascends :
        (i j : ℕ) → i ≤ j → j < 2 → stardict_strcmp casecmp (key_of i) (key_of j) ≢ Ordering.gt
    ascends zero zero le lt = λ e. cc
    ascends zero (suc zero) le lt = λ e. cc
    ascends i (suc (suc j)) le lt = absurd (omega arith)
    ascends (suc i) zero le lt = absurd (omega arith)
    ascends (suc zero) (suc zero) le lt = λ e. cc
    ascends (suc (suc i)) (suc zero) le lt = absurd (omega arith)

search-Finds_example :
    Finds
      (stardict_strcmp casecmp)
      key_of
      2
      (codes "apply")
      0
      2
      (search (stardict_strcmp casecmp) (get_elem? two_keys) (codes "apply") 3 0 2)
search-Finds_example =
    search-Finds (stardict_strcmp-IsOrder casecmp casecmp-IsPreorder) (get_elem? two_keys) key_of 2
      two_keys-IsSorted (codes "apply") 3 0 2 (omega arith) (omega arith) (omega arith)
      (λ i lt. absurd (omega arith)) (λ i le lt. absurd (omega arith))

suggest-Suggests_example :
    (s : ℕ) × (suggest ascii_match
        (get_elem? two_keys)
        (codes "applx")
        1
        (ascii_match (codes "applx") (codes "apply"))
      ≡ some s)
    × Suggests (matches ascii_match (get_elem? two_keys) key_of (codes "applx")) 1 s
suggest-Suggests_example =
    suggest-Suggests ascii_match (get_elem? two_keys) key_of (codes "applx") 1
      (ascii_match (codes "applx") (codes "apply"))
      (λ i lt. two_keys-IsSorted.reads i (omega arith)) refl
