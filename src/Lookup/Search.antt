-- ===== src/Lookup/Search.antt =====
-- The binary search of source_codes/stardictd/src/lib/stddict.cpp over sorted keys.
use stardictd.Base.{
  ℕ, zero, suc, ◌+◌, ◌-◌, ◌/◌, ◌≤◌, ◌<◌, ◌≡◌, ◌≢◌, refl, arith, false, true, Option, none, some,
  Bytes, Bool-cases, inl, inr, ltb, ltb→lt,
}
use stardictd.Compare.{Ordering, Comparison}
use stardictd.Compare.Order.{IsOrder, gt_of_le, lt_of_le}
use stardictd.Lookup.{Outcome, hit, miss, search}

-- The keys from `lo` up to `count` are readable, and in ascending order (equal keys are allowed).
pub record IsSorted (cmp : Comparison) (get : ℕ → Option Bytes) (key : ℕ → Bytes) (count : ℕ)
    : Type 0 where
  pub reads : (i : ℕ) → i < count → get i ≡ some (key i)
  pub ascends : (i j : ℕ) → i ≤ j → j < count → cmp (key i) (key j) ≢ Ordering.gt

-- The word stands at `m`, or it belongs between the keys below `from` and those from `from` on.
abbrev pub Splits : Comparison → (ℕ → Bytes) → ℕ → Bytes → ℕ → Type 0
Splits cmp key count str from =
    ((i : ℕ) → i < from → cmp str (key i) ≡ Ordering.gt)
    × ((i : ℕ) → from ≤ i → i < count → cmp str (key i) ≡ Ordering.lt)

abbrev pub Finds : Comparison → (ℕ → Bytes) → ℕ → Bytes → ℕ → ℕ → Option Outcome → Type 0
Finds cmp key count str lo hi none = ⊥
Finds cmp key count str lo hi (some (hit m)) = (lo ≤ m) × (m < hi) × (cmp str (key m) ≡ Ordering.eq)
Finds cmp key count str lo hi (some (miss from end)) =
    (lo ≤ from) × (from ≤ hi) × (from ≡ end) × Splits cmp key count str from

module _ (cmp : Comparison) (get : ℕ → Option Bytes) (str : Bytes) (fuel from end : ℕ) where
  search_stop : ltb from end ≡ false → search cmp get str (suc fuel) from end ≡ some (miss from end)
  unfolding search
  search_stop h = rw (h, search)

  search_step :
      (key : Bytes)
      → ltb from end ≡ true
      → get ((from + (end - 1)) / 2) ≡ some key
      → search cmp get str (suc fuel) from end ≡ elim (cmp str key) [
        | Ordering.gt ↦ search cmp get str fuel ((from + (end - 1)) / 2 + 1) end
        | Ordering.lt ↦ search cmp get str fuel from ((from + (end - 1)) / 2)
        | Ordering.eq ↦ some (hit ((from + (end - 1)) / 2))
      ]
  unfolding search
  search_step key h k = rw (h, search) (rw (k, search))

module _ {cmp : Comparison} (order : IsOrder cmp) (get : ℕ → Option Bytes) (key : ℕ → Bytes)
    (count : ℕ) (sorted : IsSorted cmp get key count) (str : Bytes) where
  -- One round: the middle key tells which half to keep.
  below_middle :
      (this : ℕ)
      → this < count
      → cmp str (key this) ≡ Ordering.gt
      → (i : ℕ) → i < this + 1
      → cmp str (key i) ≡ Ordering.gt
  below_middle this small h i lt =
      gt_of_le order str (key i) (key this) h (sorted.ascends i this (omega arith) small)

  above_middle :
      (this : ℕ)
      → cmp str (key this) ≡ Ordering.lt
      → (i : ℕ) → this ≤ i
      → i < count
      → cmp str (key i) ≡ Ordering.lt
  above_middle this h i le lt =
      lt_of_le order str (key this) (key i) h (sorted.ascends this i le lt)

  widen :
      (lo hi from end : ℕ) (r : Option Outcome)
      → lo ≤ from
      → end ≤ hi
      → Finds cmp key count str from end r
      → Finds cmp key count str lo hi r
  widen lo hi from end none p q f = f
  widen lo hi from end (some (hit m)) p q f = (omega arith, omega arith, f.2)
  widen lo hi from end (some (miss a b)) p q f = (omega arith, omega arith, f.2, f.3)

  -- The three ways to go on from the middle key.
  round-Finds :
      (lo hi this : ℕ) (right left : Option Outcome) (o : Ordering)
      → lo ≤ this
      → this < hi
      → cmp str (key this) ≡ o
      → (o ≡ Ordering.gt → Finds cmp key count str (this + 1) hi right)
      → (o ≡ Ordering.lt → Finds cmp key count str lo this left)
      → Finds cmp key count str lo hi
          (elim o [ Ordering.gt ↦ right | Ordering.lt ↦ left | Ordering.eq ↦ some (hit this) ])
  round-Finds lo hi this right left Ordering.gt p q e f g =
      widen lo hi (this + 1) hi right (omega arith) (omega arith) (f refl)
  round-Finds lo hi this right left Ordering.lt p q e f g =
      widen lo hi lo this left (omega arith) (omega arith) (g refl)
  round-Finds lo hi this right left Ordering.eq p q e f g = (p, q, e)

  -- On a list sorted by a total order, whose keys below `from` are smaller than the word and whose
  -- keys from `end` on are greater: with any fuel above the width of the range the search returns,
  -- having read keys below `count` only, and finds the word or its place.
  pub search-Finds :
      (fuel from end : ℕ)
      → end - from < fuel
      → from ≤ end
      → end ≤ count
      → ((i : ℕ) → i < from → cmp str (key i) ≡ Ordering.gt)
      → ((i : ℕ) → end ≤ i → i < count → cmp str (key i) ≡ Ordering.lt)
      → Finds cmp key count str from end (search cmp get str fuel from end)
  search-Finds zero from end enough ordered fits below above = absurd (omega arith)
  search-Finds (suc fuel) from end enough ordered fits below above =
      elim (Bool-cases (ltb from end)) [
        | inr empty ↦
            let same : from ≡ end = ground arith in
            rw (search_stop cmp get str fuel from end empty)
              (omega arith, omega arith, same, (below, λ i p q. above i (omega arith) q))
        | inl room ↦
            let this : ℕ = (from + (end - 1)) / 2 in
            let ends : from < end = ltb→lt from end room in
            let lower : from ≤ this = omega arith in
            let upper : this < end = omega arith in
            let small : this < count = omega arith in
            rw (search_step cmp get str fuel from end (key this) room (sorted.reads this small)) (
              round-Finds from end this _ _ (cmp str (key this)) lower upper refl
                (λ gt.
                  search-Finds fuel (this + 1) end (omega arith) (omega arith) fits
                    (below_middle this small gt) above)
                (λ lt.
                  search-Finds fuel from this (omega arith) (omega arith) (omega arith) below
                    (above_middle this lt)))
      ]
