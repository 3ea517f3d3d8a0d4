-- ===== src/WordList/Correct.antt =====
-- A well-formed .idx.gz file, from its bytes to the answers
-- (source_codes/stardictd/src/lib/stddict.cpp).
use stardictd.Base.{
  ℕ, ◌-◌, ◌≤◌, ◌<◌, ◌≡◌, ◌≢◌, refl, ◌∙◌, ap, arith, List, some, Bytes, length, get_or, All, map, [],
  ◌∷◌, suc, zero,
}
use stardictd.Compare.{Ordering, Comparison, stardict_strcmp}
use stardictd.Compare.Order.{IsPreorder, stardict_strcmp-IsOrder}
use stardictd.IdxFile.Layout.{encode, IsNetworkOrder}
use stardictd.Lookup.{LookupResult}
use stardictd.Lookup.Flat.{Located, lookup-Located}
use stardictd.Lookup.Search.{IsSorted}
use stardictd.WordList.{WordList, load, get_key, get_data, wordlist_lookup}
use stardictd.WordList.Load.{
  Article, IsArticle, no_article, entry_of, All-entry_of, loaded, load-encode, key_at,
  get_key-loaded, length-starts, get_data-entry_of,
}

abbrev pub word_at : List Article → ℕ → Bytes
word_at xs i = (get_or xs i no_article).word

length-map_entry : (xs : List Article) → length (map entry_of xs) ≡ length xs
length-map_entry [] = refl
length-map_entry (x ∷ xs) = ap suc (length-map_entry xs)

key_at-word_at : (xs : List Article) (i : ℕ) → key_at (map entry_of xs) i ≡ word_at xs i
key_at-word_at [] i = refl
key_at-word_at (x ∷ xs) zero = refl
key_at-word_at (x ∷ xs) (suc i) = key_at-word_at xs i

abbrev pub file_of : List Article → Bytes
file_of xs = encode (map entry_of xs)

-- If `g_ntohl` reverses bytes, a well-formed file is loaded, and every entry's word, article offset
-- and size are read back.
pub load_reads :
    (g_ntohl : ℕ → ℕ) (xs : List Article)
    → IsNetworkOrder g_ntohl
    → All IsArticle xs
    → (w : WordList) × (load (some (file_of xs)) (length xs) (length (file_of xs)) ≡ some w)
      × ((i : ℕ)
          → i < length xs
          → (get_key w i ≡ some (word_at xs i))
            × (get_data g_ntohl w i
                ≡ some ((get_or xs i no_article).offset, (get_or xs i no_article).size)))
load_reads g_ntohl xs law h = (
  loaded (map entry_of xs),
  rw (← length-map_entry xs) (load-encode (map entry_of xs) (All-entry_of xs h)),
  λ i lt. (
    get_key-loaded (map entry_of xs) i (All-entry_of xs h) (omega (arith, length-map_entry xs))
        ∙ ap some (key_at-word_at xs i),
    get_data-entry_of g_ntohl law xs i h lt,
  ),
)

-- The words stand in the order of the index.
abbrev pub IsAscending : Comparison → List Article → Type 0
IsAscending cmp xs =
    (i j : ℕ) → i ≤ j → j < length xs → cmp (word_at xs i) (word_at xs j) ≢ Ordering.gt

-- A well-formed file with one word at least, whose words ascend by `stardict_strcmp`, is loaded and
-- answers every lookup, if `g_ascii_strcasecmp` ranks the strings: the answer is the word's index,
-- or the place where it belongs with the suggestion for it, or "behind the last word".
pub load_lookup :
    (g_ascii_strcasecmp : Comparison) (prefix_match : Bytes → Bytes → ℕ) (xs : List Article)
    (str : Bytes)
    → IsPreorder g_ascii_strcasecmp
    → All IsArticle xs
    → IsAscending (stardict_strcmp g_ascii_strcasecmp) xs
    → 0 < length xs
    → (w : WordList) × (r : LookupResult) × (load
          (some (file_of xs))
          (length xs)
          (length (file_of xs))
        ≡ some w)
      × (wordlist_lookup g_ascii_strcasecmp prefix_match w str ≡ some r)
      × Located (stardict_strcmp g_ascii_strcasecmp) prefix_match (word_at xs) (length xs) str r
unfolding wordlist_lookup
load_lookup casecmp prefix_match xs str pre h ascends room =
    let es = map entry_of xs in
    let ok = All-entry_of xs h in
    let sorted : IsSorted (stardict_strcmp casecmp) (get_key (loaded es)) (word_at xs) (length xs) =
      record {
        reads = λ i lt.
            get_key-loaded es i ok (omega (arith, length-map_entry xs))
            ∙ ap some (key_at-word_at xs i);
        ascends = ascends;
      } in
    let (r, runs, located) =
      lookup-Located (stardict_strcmp-IsOrder casecmp pre) prefix_match (get_key (loaded es))
        (word_at xs) (length xs) sorted str room in
    let count : length (loaded es).wordlist - 1 ≡ length xs =
      omega (arith, length-starts es, length-map_entry xs) in
    (loaded es, r, rw (← length-map_entry xs) (load-encode es ok), rw count runs, located)
