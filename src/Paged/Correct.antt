-- ===== src/Paged/Correct.antt =====
-- A well-formed .idx or .syn file, from its bytes to the answers
-- (source_codes/stardictd/src/lib/stddict.cpp).
use stardictd.Base.{ℕ, ◌<◌, ◌≡◌, List, some, none, Bytes, length}
use stardictd.Compare.Order.{IsPreorder, stardict_strcmp-IsOrder}
use stardictd.Compare.{Comparison, stardict_strcmp}
use stardictd.IdxFile.Layout.{IsNetworkOrder}
use stardictd.Lookup.{LookupResult}
use stardictd.Paged.Files.{
  offset_index_load, offset_index_get_key, offset_index_lookup, synonym_file_load,
  synonym_file_get_key, synonym_file_lookup,
}
use stardictd.Paged.Lookup.Answer.{lookup-Located}
use stardictd.Paged.Lookup.InPage.{Located, IsAscending}
use stardictd.Paged.Opened.Keys.{item_at, get_key_lem}
use stardictd.Paged.Opened.Loaded.{load_lem}
use stardictd.Paged.Opened.{IsDictionary}
use stardictd.Paged.Page.{file_of}
use stardictd.Paged.{PageEntry, Paged}

module _ (g_ntohl : ℕ → ℕ) (xs : List PageEntry) (law : IsNetworkOrder g_ntohl) where
  -- If `g_ntohl` reverses bytes, a well-formed .idx file with an entry is opened, with no cached
  -- offset table, and every entry is read back with its offset and size.
  pub offset_index_reads :
      IsDictionary 2 xs
      → (s : Paged) × (offset_index_load g_ntohl none (some (file_of xs)) (length xs) ≡ some s)
        × ((i : ℕ)
            → i < length xs
            → (t : Paged) × (offset_index_get_key g_ntohl s i ≡ some (t, item_at xs i)))
  unfolding offset_index_load offset_index_get_key
  offset_index_reads d =
      let (s, runs, open_s, keys) = load_lem g_ntohl law d in
      (s, runs, λ i lt. let (t, read, loads) = get_key_lem g_ntohl law d s i open_s lt in (t, read))

  -- If `g_ntohl` reverses bytes, a well-formed .syn file with an entry is opened, with no cached
  -- offset table, and every entry is read back with the index behind its key.
  pub synonym_file_reads :
      IsDictionary 1 xs
      → (s : Paged) × (synonym_file_load g_ntohl none (some (file_of xs)) (length xs) ≡ some s)
        × ((i : ℕ)
            → i < length xs
            → (t : Paged) × (synonym_file_get_key g_ntohl s i ≡ some (t, item_at xs i)))
  unfolding synonym_file_load synonym_file_get_key
  synonym_file_reads d =
      let (s, runs, open_s, keys) = load_lem g_ntohl law d in
      (s, runs, λ i lt. let (t, read, loads) = get_key_lem g_ntohl law d s i open_s lt in (t, read))

  module _ (g_ascii_strcasecmp : Comparison) (prefix_match : Bytes → Bytes → ℕ) (str : Bytes)
      (pre : IsPreorder g_ascii_strcasecmp)
      (ascends : IsAscending (stardict_strcmp g_ascii_strcasecmp) xs) where
    -- If `g_ntohl` reverses bytes and `g_ascii_strcasecmp` ranks the strings, a well-formed .idx
    -- file whose words ascend is opened, with no cached offset table, and every lookup in it returns:
    -- the word's index, or its place among the words. The suggestion is the one that `Suggests`
    -- describes, unless that place is the first of a page: there the scan starts from the match of
    -- the first key of the page before.
    pub offset_index_answers :
        IsDictionary 2 xs
        → (s : Paged) × (t : Paged) × (r : LookupResult) × (offset_index_load g_ntohl none
              (some (file_of xs))
              (length xs)
            ≡ some s)
          × (offset_index_lookup g_ntohl g_ascii_strcasecmp prefix_match s str ≡ some (t, r))
          × Located (stardict_strcmp g_ascii_strcasecmp) prefix_match xs str r
    unfolding offset_index_load offset_index_lookup
    offset_index_answers d =
        let order = stardict_strcmp-IsOrder g_ascii_strcasecmp pre in
        let (s, runs, open_s, keys) = load_lem g_ntohl law d in
        let (t, r, finds, open_t, keys_t, located) =
          lookup-Located g_ntohl law d order ascends prefix_match str s open_s keys in
        (s, t, r, runs, finds, located)

    -- If `g_ntohl` reverses bytes and `g_ascii_strcasecmp` ranks the strings, a well-formed .syn
    -- file whose words ascend is opened, with no cached offset table, and every lookup in it returns:
    -- the word's index, or its place among the words, with the suggestion as in an .idx file.
    pub synonym_file_answers :
        IsDictionary 1 xs
        → (s : Paged) × (t : Paged) × (r : LookupResult) × (synonym_file_load g_ntohl none
              (some (file_of xs))
              (length xs)
            ≡ some s)
          × (synonym_file_lookup g_ntohl g_ascii_strcasecmp prefix_match s str ≡ some (t, r))
          × Located (stardict_strcmp g_ascii_strcasecmp) prefix_match xs str r
    unfolding synonym_file_load synonym_file_lookup
    synonym_file_answers d =
        let order = stardict_strcmp-IsOrder g_ascii_strcasecmp pre in
        let (s, runs, open_s, keys) = load_lem g_ntohl law d in
        let (t, r, finds, open_t, keys_t, located) =
          lookup-Located g_ntohl law d order ascends prefix_match str s open_s keys in
        (s, t, r, runs, finds, located)
