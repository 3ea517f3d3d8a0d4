-- ===== src/Compare.antt =====
-- The comparisons by which words are ordered (source_codes/stardictd/src/lib/stddict.cpp, top).
-- A `gint` result is modelled by its sign, an `Ordering`: the callers only test it against 0.
-- glib's `g_ascii_strcasecmp` and the collation tables (`utf8_collate` of a `CollateFunctions`
-- code) are parameters.
pub mod Order
use Prim.Native.Nat.{compare}
pub use Prim.Native.Nat.{Ordering}
use stardictd.Base.{ℕ, ◌-◌, [], ◌∷◌, Bytes, ◌==◌, if◌then◌else◌}

-- `strcmp` of the C library: the first byte that differs decides, and a proper prefix is smaller.
unfoldable pub strcmp : Bytes → Bytes → Ordering
strcmp [] [] = Ordering.eq
strcmp [] (y ∷ ys) = Ordering.lt
strcmp (x ∷ xs) [] = Ordering.gt
strcmp (x ∷ xs) (y ∷ ys) = elim (compare x y) [ Ordering.eq ↦ strcmp xs ys | o ↦ o ]

abbrev pub Comparison : Type 0
Comparison = Bytes → Bytes → Ordering

-- `stardict_strcmp` over `g_ascii_strcasecmp`: words that differ in case only are ordered by bytes.
unfoldable pub stardict_strcmp : Comparison → Comparison
stardict_strcmp g_ascii_strcasecmp s1 s2 = elim (g_ascii_strcasecmp s1 s2) [
  | Ordering.eq ↦ strcmp s1 s2
  | a ↦ a
]

-- `stardict_collate` over `utf8_collate`, for one collation function.
unfoldable pub stardict_collate : (ℕ → Comparison) → ℕ → Comparison
stardict_collate utf8_collate func str1 str2 = elim (utf8_collate func str1 str2) [
  | Ordering.eq ↦ strcmp str1 str2
  | x ↦ x
]

module _ (g_ascii_strcasecmp : Comparison) (utf8_collate : ℕ → Comparison) where
  -- The level is `EnableCollationLevel`; at level 2 the client chooses the collation.
  unfoldable pub stardict_server_collate : ℕ → ℕ → ℕ → Comparison
  unfolding stardict_strcmp stardict_collate
  stardict_server_collate level func servercollatefunc str1 str2 =
      if level == 0
      then stardict_strcmp g_ascii_strcasecmp str1 str2
      else if level == 1
      then stardict_collate utf8_collate func str1 str2
      else if servercollatefunc == 0
      then stardict_strcmp g_ascii_strcasecmp str1 str2
      else stardict_collate utf8_collate (servercollatefunc - 1) str1 str2

  unfoldable pub stardict_casecmp : ℕ → ℕ → ℕ → Comparison
  stardict_casecmp level func servercollatefunc s1 s2 =
      if level == 0
      then g_ascii_strcasecmp s1 s2
      else if level == 1
      then utf8_collate func s1 s2
      else if servercollatefunc == 0
      then g_ascii_strcasecmp s1 s2
      else utf8_collate (servercollatefunc - 1) s1 s2
