-- ===== src/Dict/Files.antt =====
-- The index files as sources of a dictionary's words (source_codes/stardictd/src/lib/stddict.cpp,
-- `idxsyn_file::getWord` without collation, which is `get_key`).
use stardictd.Base.{ℕ, refl, List, Option, some, Bytes, length, ◌>>=◌}
use stardictd.Dict.Reads.{Reads}
use stardictd.IdxFile.Layout.{IsNetworkOrder}
use stardictd.Paged.Opened.Keys.{key_at, get_key_lem}
use stardictd.Paged.Opened.{IsDictionary, IsOpen}
use stardictd.Paged.{PageEntry, Paged}
use stardictd.Paged

-- `getWord` of an `offset_index` or a `synonym_file`; the state is the page in memory.
abbrev pub paged_word : (ℕ → ℕ) → ℕ → Paged → ℕ → Option (Paged × Bytes)
paged_word g_ntohl fields s idx = do r ← Paged.get_key g_ntohl fields s idx; some (r.0, r.1.keystr)

-- If `g_ntohl` reverses bytes, every word of a well-formed file that is open can be read, whatever
-- page is in memory, and the file is open afterwards.
pub paged_word-Reads :
    (g_ntohl : ℕ → ℕ) (fields : ℕ) (xs : List PageEntry)
    → IsNetworkOrder g_ntohl
    → IsDictionary fields xs
    → Reads (paged_word g_ntohl fields) (length xs) (key_at xs) (IsOpen xs)
paged_word-Reads g_ntohl fields xs law d = record {
  read = λ s i o lt.
      let (t, runs, loads) = get_key_lem g_ntohl law d s i o lt in
      (t, rw runs refl, loads.still_open);
}
