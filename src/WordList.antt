-- ===== src/WordList.antt =====
-- `wordlist_index` of source_codes/stardictd/src/lib/stddict.cpp: the index of a compressed .idx.gz
-- file, held whole in memory. The file's decompressed contents are what zlib hands over; `none` is
-- a file that cannot be opened. A pointer into `idxdatabuf` is the rest of the buffer from there.
-- The branches of `load` on `EnableCollationLevel` are left out: they change nothing of the list.
pub mod Load
pub mod Correct
use stardictd.Base.{
  ℕ, zero, suc, ◌+◌, ◌*◌, ◌-◌, List, [], ◌∷◌, Option, none, some, ◌>>=◌, Bytes, ◌==◌, if◌then◌else◌,
  drop, take, length, get_elem?,
}
use stardictd.Compare.{Comparison, stardict_strcmp}
use stardictd.IdxFile.{strlen, c_string, get_network, entry_size}
use stardictd.Lookup.{LookupResult, lookup}

pub record WordList : Type 0 where
  pub wordcount : ℕ
  pub wordlist : List Bytes

-- The loop of `load`: the start of each of `wc` entries, and the end behind them.
unfoldable pub entry_starts : ℕ → Bytes → Option (List Bytes)
entry_starts zero p1 = some (p1 ∷ [])
entry_starts (suc n) p1 = do
  len ← strlen p1
  rest ← entry_starts n (drop (entry_size 8 len) p1)
  some (p1 ∷ rest)

-- `load`: `gzread` gives at most `fsize` bytes, and fewer than `fsize` is a failure.
unfoldable pub load : Option Bytes → ℕ → ℕ → Option WordList
unfolding entry_starts
load gz wc fsize = do
  contents ← gz
  let idxdatabuf = take fsize contents
  starts ← (if length idxdatabuf == fsize then entry_starts wc idxdatabuf else none)
  some (record { wordcount = wc; wordlist = starts })

unfoldable pub get_key : WordList → ℕ → Option Bytes
get_key w idx = do p ← get_elem? w.wordlist idx; c_string p

-- `get_data`: the article's offset and size (`wordentry_offset`, `wordentry_size`).
unfoldable pub get_data : (ℕ → ℕ) → WordList → ℕ → Option (ℕ × ℕ)
get_data g_ntohl w idx = do
  p ← get_elem? w.wordlist idx
  len ← strlen p
  let p1 = drop (len + 1) p
  offset ← get_network g_ntohl p1
  size ← get_network g_ntohl (drop 4 p1)
  some (offset, size)

-- `lookup`, with `iTo = wordlist.size() - 2` at the start.
unfoldable pub wordlist_lookup :
    Comparison → (Bytes → Bytes → ℕ) → WordList → Bytes → Option LookupResult
wordlist_lookup g_ascii_strcasecmp prefix_match w str =
    lookup (stardict_strcmp g_ascii_strcasecmp) prefix_match (get_key w) (length w.wordlist - 1) str
