-- ===== src/Tests/WordLists.antt =====
-- An index file of two words: runs, and the theorems on it
-- (source_codes/stardictd/src/lib/stddict.cpp, `wordlist_index`).
use stardictd.Base.{
  ℕ, zero, suc, ◌<◌, ◌≡◌, refl, arith, List, [], ◌∷◌, some, Option, length, codes, get_or, true,
  false, ◌>>=◌,
}
use stardictd.Base.Int.{pos}
use stardictd.Compare.{stardict_strcmp, strcmp}
use stardictd.IdxFile.{c_string, strlen, get_network}
use stardictd.Lookup.Flat.{Located}
use stardictd.Lookup.Prefix.{prefix_match}
use stardictd.Lookup.{LookupResult, lookup, invalid_index}
use stardictd.Tests.Platform.{casecmp, casecmp-IsPreorder, ntohl, ntohl-IsNetworkOrder, ascii_match}
use stardictd.WordList.Correct.{file_of, word_at, IsAscending, load_reads, load_lookup}
use stardictd.WordList.Load.{Article, no_article}
use stardictd.WordList.{WordList, load, get_key, get_data, wordlist_lookup}

abbrev words : List Article
words =
    record { word = codes "apple"; offset = 0; size = 300 }
    ∷ record { word = codes "apply"; offset = 300; size = 20 }
    ∷ []

abbrev find_in_words : Option WordList → List ℕ → Option LookupResult
find_in_words w str = w >>= λ v. wordlist_lookup casecmp ascii_match v str

abbrev loaded_words : Option WordList
loaded_words = load (some (file_of words)) (length words) (length (file_of words))

lookups :
    (find_in_words loaded_words (codes "apply")
      ≡ some (record { found = true; idx = pos 1; idx_suggest = pos 1 }))
    × (find_in_words loaded_words (codes "applx")
        ≡ some (record { found = false; idx = pos 1; idx_suggest = pos 0 }))
    × (find_in_words loaded_words (codes "zoo")
        ≡ some (record { found = false; idx = invalid_index; idx_suggest = pos 1 }))
    × ((loaded_words >>= λ v. get_data ntohl v 1) ≡ some (300, 20))
unfolding wordlist_lookup load lookup get_key get_data stardict_strcmp strcmp c_string strlen
    get_network prefix_match
lookups = (refl, refl, refl, refl)

words-IsAscending : IsAscending (stardict_strcmp casecmp) words
unfolding stardict_strcmp strcmp
words-IsAscending zero zero le lt = λ e. cc
words-IsAscending zero (suc zero) le lt = λ e. cc
words-IsAscending zero (suc (suc j)) le lt = absurd (omega arith)
words-IsAscending (suc i) zero le lt = absurd (omega arith)
words-IsAscending (suc zero) (suc zero) le lt = λ e. cc
words-IsAscending (suc (suc i)) (suc zero) le lt = absurd (omega arith)
words-IsAscending (suc i) (suc (suc j)) le lt = absurd (omega arith)

load_reads_example :
    (w : WordList) × (load (some (file_of words)) (length words) (length (file_of words)) ≡ some w)
    × ((i : ℕ)
        → i < length words
        → (get_key w i ≡ some (word_at words i))
          × (get_data ntohl w i
              ≡ some ((get_or words i no_article).offset, (get_or words i no_article).size)))
load_reads_example = load_reads ntohl words ntohl-IsNetworkOrder (omega arith)

load_lookup_example :
    (w : WordList) × (r : LookupResult) × (load
        (some (file_of words))
        (length words)
        (length (file_of words))
      ≡ some w)
    × (wordlist_lookup casecmp ascii_match w (codes "applx") ≡ some r)
    × Located (stardict_strcmp casecmp) ascii_match (word_at words) (length words) (codes "applx") r
load_lookup_example =
    load_lookup casecmp ascii_match words (codes "applx") casecmp-IsPreorder (omega arith)
      words-IsAscending (omega arith)
