-- ===== src/Tests/Articles.antt =====
-- An article of a text and a sound, read from a data file
-- (source_codes/stardictd/src/lib/data.cpp, `DictBase::GetWordData`).
use stardictd.Articles.Cache.{IsCache, get_word_data-read_article}
use stardictd.Articles.Expand.{Section, packed, full, kinds, read_article-full}
use stardictd.Articles.{
  DictBase, copy_items, section_size, is_sized, read_article, get_word_data, host32,
}
use stardictd.Base.{◌≡◌, refl, arith, [], ◌∷◌, ◌++◌, some, none, length, codes, Bytes, replicate}
use stardictd.IdxFile.{strlen, get_uint32}

abbrev text : Section
text = record { kind = b'm'; content = codes "hi" }

abbrev sound : Section
sound = record { kind = b'W'; content = 7 ∷ 0 ∷ 9 ∷ [] }

abbrev data_file : Bytes
data_file = codes "?" ++ (packed (text ∷ sound ∷ []) ++ codes "?")

article_read :
    read_article data_file (codes "mW") 1 6
    ≡ some (host32 12 ++ (codes "mhi" ++ (0 ∷ (b'W' ∷ (host32 3 ++ (7 ∷ 0 ∷ 9 ∷ []))))))
unfolding read_article copy_items section_size is_sized strlen get_uint32
article_read = refl

read_article-full_example :
    read_article data_file (kinds (text ∷ sound ∷ [])) 1 6
    ≡ some (host32 (length (full (text ∷ sound ∷ []))) ++ full (text ∷ sound ∷ []))
unfolding is_sized
read_article-full_example =
    read_article-full (codes "?") (codes "?") text (sound ∷ [])
      (((λ e. ((λ z. cc), ((λ z. cc), tt))), omega arith), (((λ e. cc), omega arith), tt))
      (omega arith)

abbrev no_articles : DictBase
no_articles = record { sametypesequence = codes "mW"; cache = replicate 10 none; cache_cur = 0 }

no_articles-IsCache : IsCache data_file (codes "mW") (λ offset. 6) no_articles
no_articles-IsCache = record {
  same_types = refl;
  places = refl;
  in_range = omega arith;
  items = (tt, (tt, (tt, (tt, (tt, (tt, (tt, (tt, (tt, (tt, tt))))))))));
}

get_word_data-read_article_example :
    (t : DictBase) × (get_word_data data_file no_articles 1 6
      ≡ some (t, host32 12 ++ (codes "mhi" ++ (0 ∷ (b'W' ∷ (host32 3 ++ (7 ∷ 0 ∷ 9 ∷ [])))))))
    × IsCache data_file (codes "mW") (λ offset. 6) t
get_word_data-read_article_example =
    get_word_data-read_article data_file (codes "mW") (λ offset. 6) no_articles 1 _
      no_articles-IsCache article_read
