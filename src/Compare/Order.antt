-- ===== src/Compare/Order.antt =====
-- Laws of the comparisons that sorted indices rely on
-- (source_codes/stardictd/src/lib/stddict.cpp).
use stardictd.Base.{◌-◌, ◌==◌, Bool-cases, inl, inr, ℕ, [], ◌∷◌, ◌≡◌, ◌≢◌, refl, arith, Bytes}
use stardictd.Compare.{
  stardict_server_collate, Ordering, strcmp, Comparison, stardict_strcmp, stardict_collate,
}

abbrev pub flip : Ordering → Ordering
flip Ordering.lt = Ordering.gt
flip Ordering.eq = Ordering.eq
flip Ordering.gt = Ordering.lt

-- What glib and the collation tables promise: the strings fall into ranks, and ties are possible.
pub record IsPreorder (cmp : Comparison) : Type 0 where
  pub flips : (a b : Bytes) → cmp b a ≡ flip (cmp a b)
  pub trans :
      (a b c : Bytes) → cmp a b ≢ Ordering.gt → cmp b c ≢ Ordering.gt → cmp a c ≢ Ordering.gt

-- A preorder in which only identical strings tie.
pub record IsOrder (cmp : Comparison) : Type 0 where
  pub preorder : IsPreorder cmp
  pub self : (a : Bytes) → cmp a a ≡ Ordering.eq
  pub identical : (a b : Bytes) → cmp a b ≡ Ordering.eq → a ≡ b

pub strcmp_flips : (a b : Bytes) → strcmp b a ≡ flip (strcmp a b)
unfolding strcmp
strcmp_flips [] [] = refl
strcmp_flips [] (y ∷ b) = refl
strcmp_flips (x ∷ a) [] = refl
strcmp_flips (x ∷ a) (y ∷ b) = ground (arith, strcmp_flips a b)

pub strcmp_self : (a : Bytes) → strcmp a a ≡ Ordering.eq
unfolding strcmp
strcmp_self [] = refl
strcmp_self (x ∷ a) = ground (arith, strcmp_self a)

pub strcmp_identical : (a b : Bytes) → strcmp a b ≡ Ordering.eq → a ≡ b
unfolding strcmp
strcmp_identical [] [] h = refl
strcmp_identical [] (y ∷ b) h = cc
strcmp_identical (x ∷ a) [] h = cc
strcmp_identical (x ∷ a) (y ∷ b) h = ground (arith, strcmp_identical a b)

pub strcmp_trans :
    (a b c : Bytes) → strcmp a b ≢ Ordering.gt → strcmp b c ≢ Ordering.gt → strcmp a c ≢ Ordering.gt
unfolding strcmp
strcmp_trans [] b [] p q = cc
strcmp_trans [] b (z ∷ c) p q = cc
strcmp_trans (x ∷ a) [] c p q = absurd (p refl)
strcmp_trans (x ∷ a) (y ∷ b) [] p q = absurd (q refl)
strcmp_trans (x ∷ a) (y ∷ b) (z ∷ c) p q = ground (arith, strcmp_trans a b c)

module _ (cmp : Comparison) (pre : IsPreorder cmp) where
  abbrev refined : Comparison
  refined a b = elim (cmp a b) [ Ordering.eq ↦ strcmp a b | o ↦ o ]

  refined_trans :
      (a b c : Bytes)
      → refined a b ≢ Ordering.gt
      → refined b c ≢ Ordering.gt
      → refined a c ≢ Ordering.gt
  refined_trans a b c = ground (
    arith,
    pre.trans a b c,
    pre.trans b c a,
    pre.trans c a b,
    pre.flips a b,
    pre.flips b c,
    pre.flips a c,
    strcmp_trans a b c,
  )

  self_of_flips : (a : Bytes) → cmp a a ≡ Ordering.eq
  self_of_flips a = ground (arith, pre.flips a a)

  refined-IsOrder : IsOrder refined
  refined-IsOrder = record {
    preorder = record {
      flips = λ a b. ground (arith, pre.flips a b, strcmp_flips a b);
      trans = refined_trans;
    };
    self = λ a. ground (arith, self_of_flips a, strcmp_self a);
    identical = λ a b. ground (arith, strcmp_identical a b);
  }

-- If `g_ascii_strcasecmp` ranks the strings, `stardict_strcmp` is a total order in which only
-- identical words tie.
pub stardict_strcmp-IsOrder :
    (g_ascii_strcasecmp : Comparison)
    → IsPreorder g_ascii_strcasecmp
    → IsOrder (stardict_strcmp g_ascii_strcasecmp)
unfolding stardict_strcmp
stardict_strcmp-IsOrder casecmp pre = refined-IsOrder casecmp pre

-- If a collation function ranks the strings, `stardict_collate` with it is a total order in which
-- only identical words tie.
pub stardict_collate-IsOrder :
    (utf8_collate : ℕ → Comparison) (func : ℕ)
    → IsPreorder (utf8_collate func)
    → IsOrder (stardict_collate utf8_collate func)
unfolding stardict_collate
stardict_collate-IsOrder collate func pre = refined-IsOrder (collate func) pre

-- How a word compares carries over along the order.
module _ {cmp : Comparison} (order : IsOrder cmp) where
  pub gt_of_le :
      (s a b : Bytes) → cmp s b ≡ Ordering.gt → cmp a b ≢ Ordering.gt → cmp s a ≡ Ordering.gt
  gt_of_le s a b h k = ground (arith, order.preorder.trans s a b)

  pub lt_of_le :
      (s a b : Bytes) → cmp s a ≡ Ordering.lt → cmp a b ≢ Ordering.gt → cmp s b ≡ Ordering.lt
  lt_of_le s a b h k = ground (
    arith,
    order.preorder.trans s a b,
    order.preorder.flips s b,
    order.preorder.trans a b s,
    order.preorder.flips s a,
  )

IsOrder_of_same : (c d : Comparison) → ((a b : Bytes) → c a b ≡ d a b) → IsOrder d → IsOrder c
IsOrder_of_same c d same order = record {
  preorder = record {
    flips = λ a b. rw (same a b, same b a) (order.preorder.flips a b);
    trans = λ x y z. rw (same x y, same y z, same x z) (order.preorder.trans x y z);
  };
  self = λ a. rw (same a a) (order.self a);
  identical = λ a b. rw (same a b) (order.identical a b);
}

-- If every comparison that can be chosen ranks the strings, `stardict_server_collate` is a total
-- order in which only identical words tie, at every collation level and choice of the client.
pub stardict_server_collate-IsOrder :
    (g_ascii_strcasecmp : Comparison) (utf8_collate : ℕ → Comparison) (level func choice : ℕ)
    → IsPreorder g_ascii_strcasecmp
    → ((f : ℕ) → IsPreorder (utf8_collate f))
    → IsOrder (stardict_server_collate g_ascii_strcasecmp utf8_collate level func choice)
unfolding stardict_server_collate
stardict_server_collate-IsOrder casecmp collate level func choice pre pres =
    let chosen = stardict_server_collate casecmp collate level func choice in
    let by_bytes = stardict_strcmp-IsOrder casecmp pre in
    let by_table = λ (f : ℕ). stardict_collate-IsOrder collate f (pres f) in
    elim (Bool-cases (level == 0)) [
      | inl h ↦ IsOrder_of_same chosen _ (λ a b. rw h refl) by_bytes
      | inr h ↦ elim (Bool-cases (level == 1)) [
        | inl k ↦ IsOrder_of_same chosen _ (λ a b. rw h (rw k refl)) (by_table func)
        | inr k ↦ elim (Bool-cases (choice == 0)) [
          | inl c ↦ IsOrder_of_same chosen _ (λ a b. rw h (rw k (rw c refl))) by_bytes
          | inr c ↦
              IsOrder_of_same chosen _ (λ a b. rw h (rw k (rw c refl))) (by_table (choice - 1))
        ]
      ]
    ]
