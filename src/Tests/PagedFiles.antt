-- ===== src/Tests/PagedFiles.antt =====
-- Paged index files: runs, and the theorems on a file of two entries; a lookup whose place is the
-- first of a page (source_codes/stardictd/src/lib/stddict.cpp, `offset_index`, `synonym_file`).
use stardictd.Base.{
  ℕ, zero, suc, ◌+◌, ◌<◌, ◌≡◌, refl, arith, List, [], ◌∷◌, ◌++◌, some, none, Option, length, codes,
  Bytes, false, true, ◌>>=◌,
}
use stardictd.Base.Int.{pos}
use stardictd.Compare.{stardict_strcmp, strcmp}
use stardictd.IdxFile.{c_string, strlen, get_network}
use stardictd.Lookup.{LookupResult, search, suggest}
use stardictd.Lookup.Prefix.{prefix_match}
use stardictd.Paged.Access.{load, assign_keys}
use stardictd.Paged.Correct.{
  offset_index_reads, offset_index_answers, synonym_file_reads, synonym_file_answers,
}
use stardictd.Paged.Files.{
  offset_index_load, offset_index_get_key, offset_index_lookup, synonym_file_load,
  synonym_file_get_key, synonym_file_lookup,
}
use stardictd.Paged.Lookup.{lookup, within_page, conclude_paged, suggest_paged}
use stardictd.Paged.Lookup.InPage.{Located, IsAscending}
use stardictd.Dict.Files.{paged_word, paged_word-Reads}
use stardictd.Dict.Reads.{Reads}
use stardictd.Paged.Opened.Keys.{item_at, key_at}
use stardictd.Paged.Opened.{IsDictionary, IsOpen}
use stardictd.Paged.Page.{file_of}
use stardictd.Paged.{
  PageEntry, Paged, page_offsets, read_first_on_page_key, get_first_on_page_key, checked_key,
  load_page, get_key,
}
use stardictd.Tests.Platform.{casecmp, casecmp-IsPreorder, ntohl, ntohl-IsNetworkOrder, ascii_match}

abbrev entry : Bytes → List ℕ → PageEntry
entry k vs = record { keystr = k; values = vs }

abbrev idx_items : List PageEntry
idx_items = entry (codes "apple") (0 ∷ 300 ∷ []) ∷ entry (codes "apply") (300 ∷ 20 ∷ []) ∷ []

abbrev syn_items : List PageEntry
syn_items = entry (codes "fruit") (0 ∷ []) ∷ entry (codes "use") (1 ∷ []) ∷ []

idx_items-IsDictionary : IsDictionary 2 idx_items
idx_items-IsDictionary = record {
  items = omega arith;
  has_entry = omega arith;
  small = omega arith;
}

syn_items-IsDictionary : IsDictionary 1 syn_items
syn_items-IsDictionary = record {
  items = omega arith;
  has_entry = omega arith;
  small = omega arith;
}

idx_items-IsAscending : IsAscending (stardict_strcmp casecmp) idx_items
unfolding stardict_strcmp strcmp
idx_items-IsAscending zero zero le lt = λ e. cc
idx_items-IsAscending zero (suc zero) le lt = λ e. cc
idx_items-IsAscending zero (suc (suc j)) le lt = absurd (omega arith)
idx_items-IsAscending (suc i) zero le lt = absurd (omega arith)
idx_items-IsAscending (suc zero) (suc zero) le lt = λ e. cc
idx_items-IsAscending (suc (suc i)) (suc zero) le lt = absurd (omega arith)
idx_items-IsAscending (suc i) (suc (suc j)) le lt = absurd (omega arith)

syn_items-IsAscending : IsAscending (stardict_strcmp casecmp) syn_items
unfolding stardict_strcmp strcmp
syn_items-IsAscending zero zero le lt = λ e. cc
syn_items-IsAscending zero (suc zero) le lt = λ e. cc
syn_items-IsAscending zero (suc (suc j)) le lt = absurd (omega arith)
syn_items-IsAscending (suc i) zero le lt = absurd (omega arith)
syn_items-IsAscending (suc zero) (suc zero) le lt = λ e. cc
syn_items-IsAscending (suc (suc i)) (suc zero) le lt = absurd (omega arith)
syn_items-IsAscending (suc i) (suc (suc j)) le lt = absurd (omega arith)

offset_index_reads_example :
    (s : Paged) × (offset_index_load ntohl none (some (file_of idx_items)) (length idx_items)
      ≡ some s)
    × ((i : ℕ)
        → i < length idx_items
        → (t : Paged) × (offset_index_get_key ntohl s i ≡ some (t, item_at idx_items i)))
offset_index_reads_example =
    offset_index_reads ntohl idx_items ntohl-IsNetworkOrder idx_items-IsDictionary

synonym_file_reads_example :
    (s : Paged) × (synonym_file_load ntohl none (some (file_of syn_items)) (length syn_items)
      ≡ some s)
    × ((i : ℕ)
        → i < length syn_items
        → (t : Paged) × (synonym_file_get_key ntohl s i ≡ some (t, item_at syn_items i)))
synonym_file_reads_example =
    synonym_file_reads ntohl syn_items ntohl-IsNetworkOrder syn_items-IsDictionary

offset_index_answers_example :
    (s : Paged) × (t : Paged) × (r : LookupResult) × (offset_index_load ntohl none
        (some (file_of idx_items))
        (length idx_items)
      ≡ some s)
    × (offset_index_lookup ntohl casecmp ascii_match s (codes "applx") ≡ some (t, r))
    × Located (stardict_strcmp casecmp) ascii_match idx_items (codes "applx") r
offset_index_answers_example =
    offset_index_answers ntohl idx_items ntohl-IsNetworkOrder casecmp ascii_match (codes "applx")
      casecmp-IsPreorder idx_items-IsAscending idx_items-IsDictionary

synonym_file_answers_example :
    (s : Paged) × (t : Paged) × (r : LookupResult) × (synonym_file_load ntohl none
        (some (file_of syn_items))
        (length syn_items)
      ≡ some s)
    × (synonym_file_lookup ntohl casecmp ascii_match s (codes "fruits") ≡ some (t, r))
    × Located (stardict_strcmp casecmp) ascii_match syn_items (codes "fruits") r
synonym_file_answers_example =
    synonym_file_answers ntohl syn_items ntohl-IsNetworkOrder casecmp ascii_match (codes "fruits")
      casecmp-IsPreorder syn_items-IsAscending syn_items-IsDictionary

-- A full page "a", "mA", "mB", …, "zx" and a second page with "zyb".
abbrev middle_items : ℕ → ℕ → List PageEntry
middle_items zero c = []
middle_items (suc n) c = entry (b'm' ∷ c ∷ []) (0 ∷ 1 ∷ []) ∷ middle_items n (c + 1)

abbrev two_pages : List PageEntry
two_pages =
    entry (codes "a") (0 ∷ 1 ∷ [])
    ∷ (middle_items 30 b'A'
        ++ (entry (codes "zx") (0 ∷ 1 ∷ []) ∷ entry (codes "zyb") (0 ∷ 1 ∷ []) ∷ []))

abbrev two_page_lookup : Bytes → Option LookupResult
two_page_lookup str = do
  s ← offset_index_load ntohl none (some (file_of two_pages)) 33
  found ← offset_index_lookup ntohl casecmp ascii_match s str
  some (found.1)

-- "zya" belongs at the first entry of the second page and shares two characters with "zyb" there,
-- but the scan starts from the match of "a" and suggests "zx".
suggestion_across_pages :
    two_page_lookup (codes "zya")
    ≡ some (record { found = false; idx = pos 32; idx_suggest = pos 31 })
unfolding offset_index_load offset_index_lookup load assign_keys lookup within_page conclude_paged
    suggest_paged page_offsets read_first_on_page_key get_first_on_page_key checked_key load_page
    get_key search suggest stardict_strcmp strcmp c_string strlen get_network prefix_match
suggestion_across_pages = refl

found_across_pages :
    two_page_lookup (codes "zyb")
    ≡ some (record { found = true; idx = pos 32; idx_suggest = pos 32 })
unfolding offset_index_load offset_index_lookup load assign_keys lookup within_page conclude_paged
    suggest_paged page_offsets read_first_on_page_key get_first_on_page_key checked_key load_page
    get_key search suggest stardict_strcmp strcmp c_string strlen get_network prefix_match
found_across_pages = refl

paged_word-Reads_example :
    Reads (paged_word ntohl 2) (length idx_items) (key_at idx_items) (IsOpen idx_items)
paged_word-Reads_example =
    paged_word-Reads ntohl 2 idx_items ntohl-IsNetworkOrder idx_items-IsDictionary
