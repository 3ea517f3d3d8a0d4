-- ===== src/Paged/Access.antt =====
-- Opening a paged index: `offset_index::load` and `synonym_file::load` of
-- source_codes/stardictd/src/lib/stddict.cpp. `cached` is what `load_cache` finds, an offset table
-- that an earlier run has saved; the file is `none` when it cannot be opened. Writing the cache and
-- sorting by a collation change nothing of the index and are left out.
use stardictd.Base.{ℕ, ◌+◌, ◌-◌, ◌/◌, ◌%◌, ◌^◌, List, [], Option, none, some, ◌>>=◌, Bytes}
use stardictd.Paged.{
  Paged, IndexEntry, entr_per_page, page_offsets, read_first_on_page_key, get_key,
}

-- `npages=(wc-1)/ENTR_PER_PAGE+2`, in `gulong`.
abbrev pub page_count : ℕ → ℕ
page_count wc = (wc + 2 ^ 64 - 1) % 2 ^ 64 / entr_per_page + 2

abbrev no_index_entry : IndexEntry
no_index_entry = record { idx = 0; keystr = [] }

-- The state before the four keys are read.
abbrev pub opened : ℕ → List ℕ → Bytes → Paged
opened wc wordoffset file = record {
  wordcount = wc;
  npages = page_count wc;
  wordoffset = wordoffset;
  file = file;
  first = no_index_entry;
  last = no_index_entry;
  middle = no_index_entry;
  real_last = no_index_entry;
  page_idx = none;
  entries = [];
}

abbrev offset_table : ℕ → Option (List ℕ) → Bytes → ℕ → Option (List ℕ)
offset_table fields none file wc = page_offsets fields wc 0 0 file
offset_table fields (some table) file wc = some table

-- The four keys that are kept in memory.
unfoldable pub assign_keys : (ℕ → ℕ) → ℕ → Paged → Option Paged
assign_keys g_ntohl fields s = do
  k0 ← read_first_on_page_key fields s 0
  k1 ← read_first_on_page_key fields s (s.npages - 2)
  k2 ← read_first_on_page_key fields s ((s.npages - 2) / 2)
  kept ← get_key g_ntohl fields s (s.wordcount - 1)
  some (record (kept.0) {
    first = record { idx = 0; keystr = k0 };
    last = record { idx = s.npages - 2; keystr = k1 };
    middle = record { idx = (s.npages - 2) / 2; keystr = k2 };
    real_last = record { idx = s.wordcount - 1; keystr = kept.1.keystr };
  })

unfoldable pub load : (ℕ → ℕ) → ℕ → Option (List ℕ) → Option Bytes → ℕ → Option Paged
load g_ntohl fields cached url wc = do
  file ← url
  wordoffset ← offset_table fields cached file wc
  assign_keys g_ntohl fields (opened wc wordoffset file)
