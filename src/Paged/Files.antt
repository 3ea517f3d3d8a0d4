-- ===== src/Paged/Files.antt =====
-- The two classes of paged indices, with their counts of numbers behind a key
-- (source_codes/stardictd/src/lib/stddict.cpp, `offset_index` and `synonym_file`).
use stardictd.Base.{ℕ, List, Option, Bytes}
use stardictd.Compare.{Comparison, stardict_strcmp}
use stardictd.Lookup.{LookupResult}
use stardictd.Paged.Access.{load}
use stardictd.Paged.Lookup.{lookup}
use stardictd.Paged.{
  PageEntry, Paged, get_key, fill, load_page, read_first_on_page_key, get_first_on_page_key,
}

abbrev offset_index_fields : ℕ
offset_index_fields = 2

abbrev synonym_file_fields : ℕ
synonym_file_fields = 1

module _ (g_ntohl : ℕ → ℕ) where
  unfoldable pub offset_index_load : Option (List ℕ) → Option Bytes → ℕ → Option Paged
  offset_index_load = load g_ntohl offset_index_fields

  unfoldable pub offset_index_get_key : Paged → ℕ → Option (Paged × PageEntry)
  offset_index_get_key = get_key g_ntohl offset_index_fields

  unfoldable pub offset_index_lookup :
      Comparison → (Bytes → Bytes → ℕ) → Paged → Bytes → Option (Paged × LookupResult)
  offset_index_lookup g_ascii_strcasecmp prefix_match s str =
      lookup g_ntohl offset_index_fields (stardict_strcmp g_ascii_strcasecmp) prefix_match str s

  -- The entry's one number is `wordentry_index`.
  unfoldable pub synonym_file_fill : ℕ → Bytes → Option (List PageEntry)
  synonym_file_fill = fill g_ntohl synonym_file_fields

  unfoldable pub synonym_file_load : Option (List ℕ) → Option Bytes → ℕ → Option Paged
  synonym_file_load = load g_ntohl synonym_file_fields

  unfoldable pub synonym_file_load_page : Paged → ℕ → Option (Paged × ℕ)
  synonym_file_load_page = load_page g_ntohl synonym_file_fields

  unfoldable pub synonym_file_get_key : Paged → ℕ → Option (Paged × PageEntry)
  synonym_file_get_key = get_key g_ntohl synonym_file_fields

  unfoldable pub synonym_file_lookup :
      Comparison → (Bytes → Bytes → ℕ) → Paged → Bytes → Option (Paged × LookupResult)
  synonym_file_lookup g_ascii_strcasecmp prefix_match s str =
      lookup g_ntohl synonym_file_fields (stardict_strcmp g_ascii_strcasecmp) prefix_match str s

unfoldable pub synonym_file_read_first_on_page_key : Paged → ℕ → Option Bytes
synonym_file_read_first_on_page_key = read_first_on_page_key synonym_file_fields

unfoldable pub synonym_file_get_first_on_page_key : Paged → ℕ → Option Bytes
synonym_file_get_first_on_page_key = get_first_on_page_key synonym_file_fields
