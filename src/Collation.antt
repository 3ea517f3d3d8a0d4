-- ===== src/Collation.antt =====
-- Collated indices of source_codes/stardictd/src/lib/stddict.cpp: `collation_file`, the parts of
-- `idxsyn_file` that choose by collation level, and `Libs::CltIndexToOrig`. The file's keys are read
-- by `get_key`, whose only effect, the page that is in memory, is left out. `utf8_collate`, glib's
-- `g_qsort_with_data` and what `load_cache` finds (a table that an earlier run has saved) are
-- parameters; saving the table is left out.
pub mod Order
pub mod Sorted
use stardictd.Base.{
  ℕ, zero, suc, ◌+◌, ◌-◌, ◌^◌, List, [], ◌∷◌, Option, none, some, ◌>>=◌, Bytes, ◌==◌, ltb,
  if◌then◌else◌, get_elem?, set, ◌||◌,
}
use stardictd.Base.Int.{ℤ, pos, negsuc}
use stardictd.Compare.{Ordering, Comparison, stardict_collate}
use stardictd.Lookup.{LookupResult, invalid_index, lookup}
use stardictd.Paged.{sub32}

pub record CollationFile : Type 0 where
  pub collate_function : ℕ
  pub wordoffset : List ℕ

-- `clt_files` has `COLLATE_FUNC_NUMS` places; a null pointer is `none`.
pub record IdxsynFile : Type 0 where
  pub wordcount : ℕ
  pub get_key : ℕ → Option Bytes
  pub lookup : Bytes → Option LookupResult
  pub clt_file : Option CollationFile
  pub clt_files : List (Option CollationFile)

-- `collation_file::GetWord`
unfoldable pub get_word : IdxsynFile → CollationFile → ℕ → Option Bytes
get_word f c idx = do o ← get_elem? c.wordoffset idx; f.get_key o

-- `collation_file::GetOrigIndex`
abbrev pub get_orig_index : CollationFile → ℕ → Option ℕ
get_orig_index c cltidx = get_elem? c.wordoffset cltidx

-- `0, 1, …`: the table before it is sorted.
abbrev pub indices_from : ℕ → ℕ → List ℕ
indices_from i zero = []
indices_from i (suc n) = i ∷ indices_from (i + 1) n

-- The sign of a `guint32` that is returned as a `gint`.
abbrev pub sign32 : ℕ → Ordering
sign32 d = if d == 0 then Ordering.eq else if ltb d (2 ^ 31) then Ordering.gt else Ordering.lt

abbrev key_or_empty : Option Bytes → Bytes
key_or_empty none = []
key_or_empty (some k) = k

-- The key at an index; what stands here for an index behind the file is never compared.
abbrev pub key_of : IdxsynFile → ℕ → Bytes
key_of f i = key_or_empty (f.get_key i)

module _ (utf8_collate : ℕ → Comparison) where
  unfoldable pub sort_collation_index : IdxsynFile → ℕ → ℕ → ℕ → Ordering
  sort_collation_index f cltfunc a b =
      elim (stardict_collate utf8_collate cltfunc (key_of f a) (key_of f b)) [
        | Ordering.eq ↦ sign32 (sub32 a b)
        | x ↦ x
      ]

  -- `collation_file::lookup`, written like the flat lookup of `wordlist_index`.
  unfoldable pub collation_lookup :
      (Bytes → Bytes → ℕ) → IdxsynFile → CollationFile → Bytes → Option LookupResult
  collation_lookup prefix_match f c str =
      lookup (stardict_collate utf8_collate (c.collate_function)) prefix_match (get_word f c)
        (f.wordcount) str

  module _ (g_qsort_with_data : (ℕ → ℕ → Ordering) → List ℕ → List ℕ)
      (load_cache : ℕ → Option (List ℕ)) where
    abbrev table : IdxsynFile → ℕ → Option (List ℕ) → List ℕ
    table f collf none =
        g_qsort_with_data (sort_collation_index f collf) (indices_from 0 (f.wordcount))
    table f collf (some cached) = cached

    unfoldable pub new_collation : IdxsynFile → ℕ → CollationFile
    new_collation f collf = record {
      collate_function = collf;
      wordoffset = table f collf (load_cache collf);
    }

    -- `collate_sort`, at level 1
    unfoldable pub collate_sort : IdxsynFile → ℕ → IdxsynFile
    unfolding new_collation
    collate_sort f collf = record f { clt_file = some (new_collation f collf) }

    -- `collate_load`, at level 2: a collation is made once.
    unfoldable pub collate_load : IdxsynFile → ℕ → Option IdxsynFile
    unfolding new_collation
    collate_load f collf = do
      slot ← get_elem? (f.clt_files) collf
      elim slot [
        | some c ↦ some f
        | none ↦
            some (record f { clt_files = set (f.clt_files) collf (some (new_collation f collf)) })
      ]

    -- The collation that a level and the client's choice select: none, or a file, loaded if need be.
    unfoldable pub select : IdxsynFile → ℕ → ℕ → Option (IdxsynFile × Option CollationFile)
    select f level servercollatefunc =
        if level == 0
        then some (f, none)
        else if level == 1
        then (do c ← f.clt_file; some (f, some c))
        else if servercollatefunc == 0
        then some (f, none)
        else (do
          t ← collate_load f (servercollatefunc - 1)
          slot ← get_elem? (t.clt_files) (servercollatefunc - 1)
          c ← slot
          some (t, some c))

    -- `getWord`
    unfoldable pub idxsyn_get_word : IdxsynFile → ℕ → ℕ → ℕ → Option (IdxsynFile × Bytes)
    unfolding select get_word
    idxsyn_get_word f idx level servercollatefunc = do
      chosen ← select f level servercollatefunc
      key ← elim (chosen.1) [ none ↦ f.get_key idx | some c ↦ get_word (chosen.0) c idx ]
      some (chosen.0, key)

    -- `Lookup`
    unfoldable pub idxsyn_lookup :
        (Bytes → Bytes → ℕ) → IdxsynFile → Bytes → ℕ → ℕ → Option (IdxsynFile × LookupResult)
    unfolding select collation_lookup
    idxsyn_lookup prefix_match f str level servercollatefunc = do
      chosen ← select f level servercollatefunc
      r ← elim (chosen.1) [
        | none ↦ f.lookup str
        | some c ↦ collation_lookup prefix_match (chosen.0) c str
      ]
      some (chosen.0, r)

    -- `CltIndexToOrig`, over the index file of one dictionary. An index below 0 other than
    -- `INVALID_INDEX` reads outside the table.
    unfoldable pub clt_index_to_orig : IdxsynFile → ℤ → ℕ → ℕ → Option (IdxsynFile × ℤ)
    unfolding select
    clt_index_to_orig f (negsuc n) level servercollatefunc =
        if level == 0 || n == 99
        then some (f, negsuc n)
        else if level == 1
        then none
        else if servercollatefunc == 0
        then some (f, negsuc n)
        else none
    clt_index_to_orig f (pos cltidx) level servercollatefunc = do
      chosen ← select f level servercollatefunc
      o ← elim (chosen.1) [ none ↦ some cltidx | some c ↦ get_orig_index c cltidx ]
      some (chosen.0, pos o)
