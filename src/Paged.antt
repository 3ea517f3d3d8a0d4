-- ===== src/Paged.antt =====
-- `offset_index` and `synonym_file` of source_codes/stardictd/src/lib/stddict.cpp: an index that
-- stays on disk and is read in pages of 32 entries. The two classes are written alike; they differ
-- in the numbers behind a key: two in an .idx file (offset and size), one in a .syn file (index).
-- `fields` is that count. The file is its bytes; `none` is a read past the end of a buffer, an
-- assertion that fails, or a short `fread`, behind which the program goes on with stale bytes.
pub mod Access
pub mod Lookup
pub mod Table
pub mod Page
pub mod Opened
pub mod Files
pub mod Correct
use stardictd.Base.{
  ℕ, zero, suc, ◌+◌, ◌*◌, ◌-◌, ◌/◌, ◌%◌, ◌^◌, Bool, true, false, ◌||◌, ◌&&◌, List, [], ◌∷◌, Option,
  none, some, ◌>>=◌, Bytes, ◌==◌, ltb, if◌then◌else◌, drop, take, length, get_elem?,
}
use stardictd.IdxFile.{strlen, c_string, get_network, entry_size}

abbrev pub entr_per_page : ℕ
entr_per_page = 32

abbrev pub max_index_key_size : ℕ
max_index_key_size = 256

pub record PageEntry : Type 0 where
  pub keystr : Bytes
  pub values : List ℕ

-- `index_entry`: a key that is kept in memory.
pub record IndexEntry : Type 0 where
  pub idx : ℕ
  pub keystr : Bytes

pub record Paged : Type 0 where
  pub wordcount : ℕ
  pub npages : ℕ
  pub wordoffset : List ℕ
  pub file : Bytes
  pub first : IndexEntry
  pub last : IndexEntry
  pub middle : IndexEntry
  pub real_last : IndexEntry
  -- `none` is the initial `page.idx` of -1
  pub page_idx : Option ℕ
  pub entries : List PageEntry

-- Whether a zero byte stands among the first bytes of the buffer, and at most 256 of them.
unfoldable pub has_zero : ℕ → Bytes → Bool
has_zero zero str = false
has_zero (suc n) [] = false
has_zero (suc n) (c ∷ str) = c == 0 || has_zero n str

unfoldable pub check_key_str_len : Bytes → ℕ → Bool
unfolding has_zero
check_key_str_len str buf_size =
    has_zero (if ltb buf_size max_index_key_size then buf_size else max_index_key_size) str

-- What `read_first_on_page_key` makes of the `minsize` bytes that it has read: the key, if the read
-- is whole and the key ends in time (the program returns NULL otherwise, and its callers use it).
unfoldable pub checked_key : Bytes → ℕ → Option Bytes
unfolding check_key_str_len
checked_key buf minsize =
    if length buf == minsize && check_key_str_len buf minsize then c_string buf else none

abbrev pub read_size : ℕ → ℕ → ℕ
read_size fields page_size =
    let bufsize = max_index_key_size + 4 * fields in
    if ltb page_size bufsize then page_size else bufsize

-- `guint32` difference of two offsets.
abbrev pub sub32 : ℕ → ℕ → ℕ
sub32 a b = (a + 2 ^ 32 - b) % 2 ^ 32

module _ (fields : ℕ) where
  -- The loop of `load` over `wc` entries: where each page starts, and the end. `i` counts entries,
  -- and `pos` is `p1 - idxdatabuffer`, stored as a `guint32`.
  unfoldable pub page_offsets : ℕ → ℕ → ℕ → Bytes → Option (List ℕ)
  page_offsets zero i pos p1 = some ((pos % 2 ^ 32) ∷ [])
  page_offsets (suc n) i pos p1 = do
    len ← strlen p1
    let index_size = entry_size (4 * fields) len
    rest ← page_offsets n (i + 1) (pos + index_size) (drop index_size p1)
    some (if i % entr_per_page == 0 then (pos % 2 ^ 32) ∷ rest else rest)

  -- `read_first_on_page_key`: one short read at the start of the page. The assertion of
  -- `offset_index`, `page_idx + 1 < npages`, is the bound of the table.
  unfoldable pub read_first_on_page_key : Paged → ℕ → Option Bytes
  read_first_on_page_key s page_idx = do
    start ← get_elem? s.wordoffset page_idx
    end ← get_elem? s.wordoffset (page_idx + 1)
    let minsize = read_size fields (sub32 end start)
    checked_key (take minsize (drop start s.file)) minsize

  unfoldable pub get_first_on_page_key : Paged → ℕ → Option Bytes
  unfolding read_first_on_page_key
  get_first_on_page_key s page_idx =
      if ltb page_idx s.middle.idx
      then if page_idx == s.first.idx
        then some s.first.keystr
        else read_first_on_page_key s page_idx
      else if ltb s.middle.idx page_idx
      then if page_idx == s.last.idx then some s.last.keystr else read_first_on_page_key s page_idx
      else some s.middle.keystr

-- How many entries a page holds: the last one may be shorter.
abbrev pub page_entry_count : Paged → ℕ → ℕ
page_entry_count s page_idx =
    if page_idx == s.npages - 2
    then if s.wordcount % entr_per_page == 0 then entr_per_page else s.wordcount % entr_per_page
    else entr_per_page

abbrev pub is_current : Option ℕ → ℕ → Bool
is_current none page_idx = false
is_current (some p) page_idx = page_idx == p

module _ (g_ntohl : ℕ → ℕ) where
  -- The numbers behind a key.
  unfoldable pub get_fields : ℕ → Bytes → Option (List ℕ)
  get_fields zero p = some []
  get_fields (suc n) p = do
    v ← get_network g_ntohl p
    rest ← get_fields n (drop 4 p)
    some (v ∷ rest)

  -- `page_t::fill`
  unfoldable pub fill : ℕ → ℕ → Bytes → Option (List PageEntry)
  unfolding get_fields
  fill fields zero p = some []
  fill fields (suc n) p = do
    len ← strlen p
    key ← c_string p
    let p1 = drop (len + 1) p
    values ← get_fields fields p1
    rest ← fill fields n (drop (4 * fields) p1)
    some (record { keystr = key; values = values } ∷ rest)

  -- The read of a page that is not in memory.
  unfoldable pub fetch_page : ℕ → Paged → ℕ → ℕ → Option Paged
  unfolding fill
  fetch_page fields s page_idx nentr = do
    start ← get_elem? s.wordoffset page_idx
    end ← get_elem? s.wordoffset (page_idx + 1)
    let size = sub32 end start
    let page_data = take size (drop start s.file)
    entries ← (if length page_data == size then fill fields nentr page_data else none)
    some (record s { page_idx = some page_idx; entries = entries })

  -- `load_page`: the page in memory is used again; any other is read and replaces it.
  unfoldable pub load_page : ℕ → Paged → ℕ → Option (Paged × ℕ)
  unfolding fetch_page
  load_page fields s page_idx = do
    let nentr = page_entry_count s page_idx
    t ← (if is_current s.page_idx page_idx then some s else fetch_page fields s page_idx nentr)
    some (t, nentr)

  -- `get_key`: the entry also gives `wordentry_offset` and `wordentry_size`, or `wordentry_index`.
  unfoldable pub get_key : ℕ → Paged → ℕ → Option (Paged × PageEntry)
  get_key fields s idx = do
    loaded ← load_page fields s (idx / entr_per_page)
    entry ← get_elem? loaded.0.entries (idx % entr_per_page)
    some (loaded.0, entry)
