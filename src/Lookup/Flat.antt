-- ===== src/Lookup/Flat.antt =====
-- What the flat lookup answers over a sorted index
-- (source_codes/stardictd/src/lib/stddict.cpp).
use stardictd.Base.{
  ℕ, ◌+◌, ◌-◌, ◌≤◌, ◌<◌, ◌≡◌, ◌≢◌, refl, arith, Option, none, some, Bytes, true, false, sym, ◌>>=◌,
}
use native.Mathlib.Decide.{dec_lt}
use stardictd.Base.Int.{pos}
use stardictd.Compare.{Ordering, Comparison}
use stardictd.Compare.Order.{IsOrder, gt_of_le, lt_of_le}
use stardictd.Lookup.{LookupResult, Outcome, hit, miss, search, conclude, lookup, invalid_index}
use stardictd.Lookup.Search.{IsSorted, Splits, Finds, search-Finds}
use stardictd.Lookup.Suggest.{Suggests, suggest-Suggests}

-- What a lookup may answer: the word's index; the place between two keys, with the suggestion; or
-- "behind the last key", with the last key suggested.
pub data Located (cmp : Comparison) (prefix_match : Bytes → Bytes → ℕ) (key : ℕ → Bytes) (count : ℕ)
    (str : Bytes) (r : LookupResult) : Type 0 where
  at :
      (m : ℕ)
      → m < count
      → key m ≡ str
      → r ≡ record { found = true; idx = pos m; idx_suggest = pos m }
      → Located cmp prefix_match key count str r
  between :
      (from s : ℕ)
      → from < count
      → Splits cmp key count str from
      → Suggests (λ i. prefix_match str (key i)) from s
      → r ≡ record { found = false; idx = pos from; idx_suggest = pos s }
      → Located cmp prefix_match key count str r
  past :
      Splits cmp key count str count
      → r ≡ record { found = false; idx = invalid_index; idx_suggest = pos (count - 1) }
      → Located cmp prefix_match key count str r

module _ {cmp : Comparison} (order : IsOrder cmp) (prefix_match : Bytes → Bytes → ℕ)
    (get : ℕ → Option Bytes) (key : ℕ → Bytes) (count : ℕ) (sorted : IsSorted cmp get key count)
    (str : Bytes) where
  abbrev Answers : Option LookupResult → Type 0
  Answers o = (r : LookupResult) × (o ≡ some r) × Located cmp prefix_match key count str r

  before_last :
      (from : ℕ)
      → from ≤ count
      → ((i : ℕ) → i < from → cmp str (key i) ≡ Ordering.gt)
      → cmp str (key (count - 1)) ≢ Ordering.gt
      → 0 < count
      → from < count
  before_last from fits below last room = elim (dec_lt from count) [
    | yes lt ↦ lt
    | no full ↦ absurd (last (below (count - 1) (omega arith)))
  ]

  conclude-Answers :
      (o : Option Outcome)
      → Finds cmp key count str 0 count o
      → cmp str (key (count - 1)) ≢ Ordering.gt
      → 0 < count
      → (out : Outcome) × (o ≡ some out) × Answers (conclude cmp prefix_match get str out)
  unfolding conclude
  conclude-Answers none f last room = absurd f
  conclude-Answers (some (hit m)) f last room = (
    hit m,
    refl,
    (
      record { found = true; idx = pos m; idx_suggest = pos m },
      refl,
      Located.at m f.1 (sym (order.identical str (key m) f.2)) refl,
    ),
  )
  conclude-Answers (some (miss from end)) f last room =
      let inside : from < count = before_last from f.1 (f.3).0 last room in
      let (s, runs, suggests) =
        suggest-Suggests prefix_match get key str from (prefix_match str (key from))
          (λ i lt. sorted.reads i (omega arith)) refl in
      let r : LookupResult = record { found = false; idx = pos from; idx_suggest = pos s } in
      (
        miss from end,
        refl,
        (
          r,
          rw (sorted.reads from inside) (rw runs),
          Located.between from s inside f.3 suggests refl,
        ),
      )

  -- The word is below the first key: it belongs at 0.
  before_first : cmp str (key 0) ≡ Ordering.lt → Splits cmp key count str 0
  before_first h = (
    λ i lt. absurd (omega arith),
    λ i le lt. lt_of_le order str (key 0) (key i) h (sorted.ascends 0 i (omega arith) lt),
  )

  behind_last : 0 < count → cmp str (key (count - 1)) ≡ Ordering.gt → Splits cmp key count str count
  behind_last room h = (
    λ i lt.
        gt_of_le order str (key i) (key (count - 1)) h
          (sorted.ascends i (count - 1) (omega arith) (omega arith)),
    λ i le lt. absurd (omega arith),
  )

  at_zero : (match : ℕ → ℕ) → Suggests match 0 0
  at_zero match = record {
    bounded = omega arith;
    grows = λ j le lt. absurd (omega arith);
    shares = λ j le lt. absurd (omega arith);
    stops = λ j e. absurd (omega arith);
  }

  -- Behind the two tests against the first and the last key.
  searched :
      0 < count
      → cmp str (key (count - 1)) ≢ Ordering.gt
      → Answers (search cmp get str (count + 1) 0 count >>= conclude cmp prefix_match get str)
  searched room last =
      let finds =
        search-Finds order get key count sorted str (count + 1) 0 count (omega arith) (omega arith)
          (omega arith) (λ i lt. absurd (omega arith)) (λ i le lt. absurd (omega arith)) in
      let (out, runs, answers) =
        conclude-Answers (search cmp get str (count + 1) 0 count) finds last room in
      rw runs answers

  by_last :
      0 < count
      → (o : Ordering) → cmp str (key (count - 1)) ≡ o
      → Answers (elim o [
        | Ordering.gt ↦
            some (record { found = false; idx = invalid_index; idx_suggest = pos (count - 1) })
        | _ ↦ search cmp get str (count + 1) 0 count >>= conclude cmp prefix_match get str
      ])
  by_last room Ordering.gt h = (_, refl, Located.past (behind_last room h) refl)
  by_last room Ordering.lt h = searched room (λ e. cc)
  by_last room Ordering.eq h = searched room (λ e. cc)

  by_first :
      0 < count
      → (o : Ordering) (rest : Option LookupResult) → cmp str (key 0) ≡ o
      → Answers rest
      → Answers (elim o [
        | Ordering.lt ↦ some (record { found = false; idx = pos 0; idx_suggest = pos 0 })
        | _ ↦ rest
      ])
  by_first room Ordering.lt rest h a =
      (_, refl, Located.between 0 0 room (before_first h) (at_zero _) refl)
  by_first room Ordering.gt rest h a = a
  by_first room Ordering.eq rest h a = a

  -- Over a sorted index with a key, every lookup returns, and its answer is right: the word's
  -- index, or the place between two keys where it belongs with the suggestion for it, or "behind".
  pub lookup-Located : 0 < count → Answers (lookup cmp prefix_match get count str)
  unfolding lookup
  lookup-Located room = rw (sorted.reads 0 room) (
      by_first room (cmp str (key 0)) _ refl (
        rw (sorted.reads (count - 1) (omega arith))
          (by_last room (cmp str (key (count - 1))) refl)))
