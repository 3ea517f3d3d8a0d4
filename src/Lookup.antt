-- ===== src/Lookup.antt =====
-- Looking a word up in a sorted list of keys: the binary search and the backward scan for the
-- suggested word, which source_codes/stardictd/src/lib/stddict.cpp writes out in
-- `wordlist_index::lookup`, `collation_file::lookup`, `offset_index::lookup` and
-- `synonym_file::lookup`. `iTo` can become -1, so the model keeps `iTo + 1`, as `end`.
-- A key is read by `get`, which is `none` outside the list. Fuel counts the rounds of the search.
pub mod Prefix
pub mod Search
pub mod Suggest
pub mod Flat
use stardictd.Base.{
  ℕ, zero, suc, ◌+◌, ◌-◌, ◌/◌, Bool, true, false, ◌||◌, Option, none, some, ◌>>=◌, Bytes, ltb, ◌==◌,
  if◌then◌else◌,
}
use stardictd.Base.Int.{ℤ, pos, negsuc}
use stardictd.Compare.{Ordering, Comparison}

-- `UNSET_INDEX` and `INVALID_INDEX` of lib/data.hpp.
abbrev pub unset_index : ℤ
unset_index = negsuc 0

abbrev pub invalid_index : ℤ
invalid_index = negsuc 99

-- The result of a lookup with its two output parameters.
pub record LookupResult : Type 0 where
  pub found : Bool
  pub idx : ℤ
  pub idx_suggest : ℤ

-- How a search loop ends: at an equal key (`iThisIndex`), or with `iFrom` and `iTo + 1`.
pub data Outcome : Type 0 where
  hit : ℕ → Outcome
  miss : ℕ → ℕ → Outcome

module _ (cmp : Comparison) (get : ℕ → Option Bytes) (str : Bytes) where
  -- `while (iFrom<=iTo) { iThisIndex=(iFrom+iTo)/2; … }`
  unfoldable pub search : ℕ → ℕ → ℕ → Option Outcome
  search zero from end = none
  search (suc fuel) from end = elim (ltb from end) [
    | true ↦ do
      let this = (from + (end - 1)) / 2
      key ← get this
      elim (cmp str key) [
        | Ordering.gt ↦ search fuel (this + 1) end
        | Ordering.lt ↦ search fuel from this
        | Ordering.eq ↦ some (hit this)
      ]
    | false ↦ some (miss from end)
  ]

-- The loop `for (;;)` behind a miss: go back from `idx_suggest` while the key before shares at
-- least as long a prefix with the word as the best so far, and some prefix at all.
module _ (prefix_match : Bytes → Bytes → ℕ) (get : ℕ → Option Bytes) (str : Bytes) where
  unfoldable pub suggest : ℕ → ℕ → Option ℕ
  suggest zero best = some 0
  suggest (suc i) best = do
    key ← get i
    let back = prefix_match str key
    let further = suggest i back
    if back == 0 || ltb back best then some (suc i) else further

module _ (cmp : Comparison) (prefix_match : Bytes → Bytes → ℕ) where
  -- What follows the search in the flat indices.
  unfoldable pub conclude : (ℕ → Option Bytes) → Bytes → Outcome → Option LookupResult
  unfolding suggest
  conclude get str (hit this) =
      some (record { found = true; idx = pos this; idx_suggest = pos this })
  conclude get str (miss from end) = do
    key ← get from
    s ← suggest prefix_match get str from (prefix_match str key)
    some (record { found = false; idx = pos from; idx_suggest = pos s })

  -- The flat lookup over `count` keys, with `iTo = count - 1` at the start.
  unfoldable pub lookup : (ℕ → Option Bytes) → ℕ → Bytes → Option LookupResult
  unfolding search conclude
  lookup get count str = do
    first ← get 0
    elim (cmp str first) [
      | Ordering.lt ↦ some (record { found = false; idx = pos 0; idx_suggest = pos 0 })
      | _ ↦ do
        last ← get (count - 1)
        elim (cmp str last) [
          | Ordering.gt ↦
              some (record { found = false; idx = invalid_index; idx_suggest = pos (count - 1) })
          | _ ↦ do outcome ← search cmp get str (count + 1) 0 count; conclude get str outcome
        ]
    ]
