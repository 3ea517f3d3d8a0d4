-- ===== src/Paged/Lookup.antt =====
-- `offset_index::lookup` and `synonym_file::lookup` of source_codes/stardictd/src/lib/stddict.cpp:
-- a binary search over the first keys of the pages, then one within the page. The suggestion's scan
-- loads pages as it goes back. As in the flat lookup the model keeps `iTo + 1`.
pub mod Suggestion
pub mod InPage
pub mod Answer
use stardictd.Base.{
  ℕ, zero, suc, ◌+◌, ◌*◌, ◌-◌, ◌/◌, ◌%◌, Bool, true, false, ◌||◌, Option, none, some, ◌>>=◌, Bytes,
  ◌==◌, ltb, if◌then◌else◌, get_elem?, map,
}
use stardictd.Base.Int.{pos}
use stardictd.Compare.{Ordering, Comparison}
use stardictd.Lookup.{LookupResult, Outcome, hit, miss, search, invalid_index}
use stardictd.Paged.{PageEntry, Paged, entr_per_page, get_first_on_page_key, load_page}

-- `page.entries[i].keystr`
abbrev pub entry_key : Paged → ℕ → Option Bytes
entry_key s i = do e ← get_elem? s.entries i; some e.keystr

module _ (g_ntohl : ℕ → ℕ) (fields : ℕ) (cmp : Comparison) (prefix_match : Bytes → Bytes → ℕ)
    (str : Bytes) where
  -- The `for (;;)` loop; a page is loaded when `idx_suggest` is its first entry.
  unfoldable pub suggest_paged : Paged → ℕ → ℕ → Option (Paged × ℕ)
  suggest_paged s zero best = some (s, 0)
  suggest_paged s (suc i) best = do
    loaded ←
        (if suc i % entr_per_page == 0
          then load_page g_ntohl fields s (i / entr_per_page)
          else some (s, 0))
    key ← entry_key loaded.0 (i % entr_per_page)
    let back = prefix_match str key
    let further = suggest_paged loaded.0 i back
    if back == 0 || ltb back best then some (loaded.0, suc i) else further

  -- Behind the search within page `page_idx`.
  unfoldable pub conclude_paged : Paged → ℕ → Outcome → Option (Paged × LookupResult)
  conclude_paged s page_idx (hit this) =
      let idx = page_idx * entr_per_page + this in
      some (s, record { found = true; idx = pos idx; idx_suggest = pos idx })
  conclude_paged s page_idx (miss from end) = do
    let idx = page_idx * entr_per_page + from
    key ← entry_key s (idx % entr_per_page)
    scanned ← suggest_paged s idx (prefix_match str key)
    some (scanned.0, record { found = false; idx = pos idx; idx_suggest = pos (scanned.1) })

  -- Behind the search over the pages; `iTo` is one less than `end`, and below 0 there is no page.
  unfoldable pub within_page : Paged → Outcome → Option (Paged × LookupResult)
  within_page s (hit this) =
      let idx = this * entr_per_page in
      some (s, record { found = true; idx = pos idx; idx_suggest = pos idx })
  within_page s (miss from zero) = none
  within_page s (miss from (suc page_idx)) = do
    loaded ← load_page g_ntohl fields s page_idx
    outcome ← search cmp (entry_key loaded.0) str (loaded.1 + 1) 1 loaded.1
    conclude_paged loaded.0 page_idx outcome

  unfoldable pub lookup : Paged → Option (Paged × LookupResult)
  lookup s = elim (cmp str s.first.keystr) [
    | Ordering.lt ↦ some (s, record { found = false; idx = pos 0; idx_suggest = pos 0 })
    | _ ↦ elim (cmp str s.real_last.keystr) [
      | Ordering.gt ↦
          some
            (s, record { found = false; idx = invalid_index; idx_suggest = pos (s.wordcount - 1) })
      | _ ↦ do
        outcome ← search cmp (get_first_on_page_key fields s) str (s.npages + 1) 0 (s.npages - 1)
        within_page s outcome
    ]
  ]
