-- ===== src/Articles.antt =====
-- `DictBase::GetWordData` of source_codes/stardictd/src/lib/data.cpp: an article is read from the
-- dictionary's data file (or what dictzip decompresses, `contents`), the type marks that
-- `sametypesequence` saves are put back, and the last ten articles are kept. `none` is a read behind
-- the end of the article or of the file; the program prints a message and goes on there.
pub mod Expand
pub mod Cache
use stardictd.Base.{
  ℕ, zero, suc, ◌+◌, ◌*◌, ◌-◌, ◌/◌, ◌%◌, ◌^◌, Bool, true, false, ◌||◌, ◌&&◌, List, [], ◌∷◌, ◌++◌,
  Option, none, some, ◌>>=◌, Bytes, ◌==◌, ltb, leb, if◌then◌else◌, drop, take, length, get_elem?,
  set,
}
use stardictd.IdxFile.{strlen, get_uint32}

abbrev pub worddata_cache_num : ℕ
worddata_cache_num = 10

-- `cacheItem`, when its data is not a null pointer.
pub record CacheItem : Type 0 where
  pub offset : ℕ
  pub data_of : Bytes

pub record DictBase : Type 0 where
  pub sametypesequence : Bytes
  pub cache : List (Option CacheItem)
  pub cache_cur : ℕ

abbrev g_ascii_isupper : ℕ → Bool
g_ascii_isupper c = leb b'A' c && leb c b'Z'

-- The cases of the `switch`es: whether a section of this type begins with its size; any other ends
-- with a terminator.
unfoldable pub is_sized : ℕ → Bool
is_sized c =
    if c == b'm'
      || c == b't'
      || c == b'y'
      || c == b'l'
      || c == b'g'
      || c == b'x'
      || c == b'k'
      || c == b'w'
    then false
    else if c == b'W' || c == b'P'
    then true
    else g_ascii_isupper c

-- A `guint32` as the (little-endian) host stores it.
abbrev pub host32 : ℕ → Bytes
host32 n = n % 256 ∷ (n / 256 % 256 ∷ (n / 65536 % 256 ∷ (n / 16777216 % 256 ∷ [])))

-- `sec_size` of a section that is not the last.
unfoldable pub section_size : ℕ → Bytes → Option ℕ
section_size c p2 =
    if is_sized c
    then (do n ← get_uint32 p2; some ((n + 4) % 2 ^ 32))
    else (do n ← strlen p2; some (n + 1))

-- The last section, whose size is what is left of the article.
abbrev pub last_section : ℕ → Bytes → Bytes
last_section c p2 = if is_sized c then host32 (length p2) ++ p2 else p2 ++ 0 ∷ []

-- The loop over `sametypesequence`, and the last item behind it.
unfoldable pub copy_items : Bytes → Bytes → Option Bytes
unfolding section_size
copy_items [] p2 = none
copy_items (c ∷ []) p2 = some (c ∷ last_section c p2)
copy_items (c ∷ d ∷ cs) p2 = do
  sec_size ← section_size c p2
  rest ← copy_items (d ∷ cs) (drop sec_size p2)
  if leb sec_size (length p2) then some (c ∷ (take sec_size p2 ++ rest)) else none

-- What the last item needs: the size in front, or the terminator.
abbrev pub last_extra : Bytes → ℕ
last_extra [] = 0
last_extra (c ∷ []) = if is_sized c then 4 else 1
last_extra (c ∷ d ∷ cs) = last_extra (d ∷ cs)

abbrev pub data_size : Bytes → ℕ → ℕ
data_size types idxitem_size = (idxitem_size + length types + last_extra types) % 2 ^ 32

abbrev read_at : Bytes → ℕ → ℕ → Option Bytes
read_at contents offset size =
    let chunk = take size (drop offset contents) in
    if length chunk == size then some chunk else none

-- The article, when it is not in the cache: its size and its data.
unfoldable pub read_article : Bytes → Bytes → ℕ → ℕ → Option Bytes
unfolding copy_items
read_article contents [] idxitem_offset idxitem_size = do
  raw ← read_at contents idxitem_offset idxitem_size
  some (host32 idxitem_size ++ raw)
read_article contents (c ∷ cs) idxitem_offset idxitem_size = do
  origin_data ← read_at contents idxitem_offset idxitem_size
  body ← copy_items (c ∷ cs) origin_data
  some (host32 (data_size (c ∷ cs) idxitem_size) ++ body)

unfoldable pub find_cached : List (Option CacheItem) → ℕ → Option Bytes
find_cached [] offset = none
find_cached (none ∷ items) offset = find_cached items offset
find_cached (some item ∷ items) offset =
    let rest = find_cached items offset in if item.offset == offset then some item.data_of else rest

abbrev pub next_slot : ℕ → ℕ
next_slot cache_cur = if cache_cur + 1 == worddata_cache_num then 0 else cache_cur + 1

unfoldable pub get_word_data : Bytes → DictBase → ℕ → ℕ → Option (DictBase × Bytes)
get_word_data contents s idxitem_offset idxitem_size = elim (find_cached s.cache idxitem_offset) [
  | some found ↦ some (s, found)
  | none ↦ do
    article ← read_article contents s.sametypesequence idxitem_offset idxitem_size
    let item : CacheItem = record { offset = idxitem_offset; data_of = article }
    let t : DictBase = record s {
      cache = set s.cache s.cache_cur (some item);
      cache_cur = next_slot s.cache_cur;
    }
    some (t, article)
]
