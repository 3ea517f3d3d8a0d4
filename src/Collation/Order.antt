-- ===== src/Collation/Order.antt =====
-- The order by which a collation's table is sorted (source_codes/stardictd/src/lib/stddict.cpp,
-- `sort_collation_index`).
use Prim.Native.Nat.{compare}
use stardictd.Base.{ℕ, ◌^◌, ◌≤◌, ◌<◌, ◌≡◌, ◌≢◌, ap, arith}
use stardictd.Collation.{IdxsynFile, sort_collation_index, sign32, key_of}
use stardictd.Compare.{Ordering, Comparison, stardict_collate}
use stardictd.Compare.Order.{flip, IsPreorder, stardict_collate-IsOrder}
use stardictd.Paged.{sub32}

-- What a sorting routine may ask of a comparison of the numbers below `n`.
pub record IsRanking (cmp : ℕ → ℕ → Ordering) (n : ℕ) : Type 0 where
  pub flips : (a b : ℕ) → a < n → b < n → cmp b a ≡ flip (cmp a b)
  pub trans :
      (a b c : ℕ)
      → a < n
      → b < n
      → c < n
      → cmp a b ≢ Ordering.gt
      → cmp b c ≢ Ordering.gt
      → cmp a c ≢ Ordering.gt

-- The difference's sign is the order of the numbers, while they are below 2^31.
sign32-sub32 : (a b : ℕ) → a < 2 ^ 31 → b < 2 ^ 31 → sign32 (sub32 a b) ≡ compare a b
sign32-sub32 a b ha hb = ground arith

module _ (utf8_collate : ℕ → Comparison) (f : IdxsynFile) (cltfunc : ℕ) where
  -- The comparison, below 2^31, is the order of the keys and then of the indices.
  abbrev by_key : ℕ → ℕ → Ordering
  by_key a b = elim (stardict_collate utf8_collate cltfunc (key_of f a) (key_of f b)) [
    | Ordering.eq ↦ compare a b
    | x ↦ x
  ]

  sort_collation_index_lem :
      (a b : ℕ)
      → a < 2 ^ 31
      → b < 2 ^ 31
      → sort_collation_index utf8_collate f cltfunc a b ≡ by_key a b
  unfolding sort_collation_index
  sort_collation_index_lem a b ha hb =
      ap
        (λ o. elim (stardict_collate utf8_collate cltfunc (key_of f a) (key_of f b)) [
          | Ordering.eq ↦ o
          | x ↦ x
        ])
        (sign32-sub32 a b ha hb)

  by_key_flips :
      IsPreorder (stardict_collate utf8_collate cltfunc)
      → (a b : ℕ) → by_key b a ≡ flip (by_key a b)
  by_key_flips pre a b = ground (arith, pre.flips (key_of f a) (key_of f b))

  by_key_trans :
      IsPreorder (stardict_collate utf8_collate cltfunc)
      → (a b c : ℕ) → by_key a b ≢ Ordering.gt
      → by_key b c ≢ Ordering.gt
      → by_key a c ≢ Ordering.gt
  by_key_trans pre a b c = ground (
    arith,
    pre.trans (key_of f a) (key_of f b) (key_of f c),
    pre.trans (key_of f b) (key_of f c) (key_of f a),
    pre.trans (key_of f c) (key_of f a) (key_of f b),
    pre.flips (key_of f a) (key_of f b),
    pre.flips (key_of f b) (key_of f c),
    pre.flips (key_of f a) (key_of f c),
  )

  -- If the collation function ranks the strings, `sort_collation_index` ranks the indices of a file
  -- of at most 2^31 words: it is antisymmetric and transitive, as a sorting routine requires.
  pub sort_collation_index-IsRanking :
      IsPreorder (utf8_collate cltfunc)
      → (n : ℕ) → n ≤ 2 ^ 31
      → IsRanking (sort_collation_index utf8_collate f cltfunc) n
  sort_collation_index-IsRanking pre n small =
      let order = (stardict_collate-IsOrder utf8_collate cltfunc pre).preorder in
      record {
        flips = λ a b ha hb.
            rw
              (
                sort_collation_index_lem a b (omega arith) (omega arith),
                sort_collation_index_lem b a (omega arith) (omega arith),
              )
              (by_key_flips order a b);
        trans = λ a b c ha hb hc.
            rw
              (
                sort_collation_index_lem a b (omega arith) (omega arith),
                sort_collation_index_lem b c (omega arith) (omega arith),
                sort_collation_index_lem a c (omega arith) (omega arith),
              )
              (by_key_trans order a b c);
      }

  -- In a table that ascends by it, the keys ascend.
  pub keys_ascend :
      (a b : ℕ)
      → sort_collation_index utf8_collate f cltfunc a b ≢ Ordering.gt
      → stardict_collate utf8_collate cltfunc (key_of f a) (key_of f b) ≢ Ordering.gt
  unfolding sort_collation_index
  keys_ascend a b = ground arith
