-- ===== src/Articles/Cache.antt =====
-- The cache of articles (source_codes/stardictd/src/lib/data.cpp, `DictBase::GetWordData`).
use stardictd.Base.{
  ℕ, zero, suc, ◌<◌, ◌≡◌, refl, ◌∙◌, sym, ap, arith, List, [], ◌∷◌, Option, none, some, Bytes,
  length, set, All, Bool-cases, inl, inr, ◌==◌,
}
use stardictd.Articles.{
  DictBase, CacheItem, worddata_cache_num, read_article, find_cached, get_word_data, next_slot,
}

some-injective : (a b : Bytes) → some a ≡ some b → a ≡ b
some-injective a b e = cc

module _ (contents : Bytes) (types : Bytes) (size_at : ℕ → ℕ) where
  -- What a place of the cache may hold: the article that stands at the offset.
  abbrev pub Holds : Option CacheItem → Type 0
  Holds none = Unit
  Holds (some item) =
      read_article contents types item.offset (size_at item.offset) ≡ some item.data_of

  pub record IsCache (s : DictBase) : Type 0 where
    pub same_types : s.sametypesequence ≡ types
    pub places : length s.cache ≡ worddata_cache_num
    pub in_range : s.cache_cur < worddata_cache_num
    pub items : All Holds s.cache

  find_cached_lem :
      (items : List (Option CacheItem)) (offset : ℕ) (d : Bytes)
      → All Holds items
      → find_cached items offset ≡ some d
      → read_article contents types offset (size_at offset) ≡ some d
  unfolding find_cached
  find_cached_lem [] offset d h e = cc
  find_cached_lem (none ∷ items) offset d h e = find_cached_lem items offset d h.1 e
  find_cached_lem (some item ∷ items) offset d h e = elim (Bool-cases (item.offset == offset)) [
    | inl hit ↦
        let same : item.offset ≡ offset = ground arith in
        let data_is : item.data_of ≡ d = some-injective item.data_of d (rw hit at e) in
        rw (← same, ← data_is) h.0
    | inr other ↦ find_cached_lem items offset d h.1 (rw other at e)
  ]

  All-set :
      (items : List (Option CacheItem)) (i : ℕ) (x : Option CacheItem)
      → All Holds items
      → Holds x
      → All Holds (set items i x)
  All-set [] i x h hx = h
  All-set (y ∷ items) zero x h hx = (hx, h.1)
  All-set (y ∷ items) (suc i) x h hx = (h.0, All-set items i x h.1 hx)

  length-set :
      (items : List (Option CacheItem)) (i : ℕ) (x : Option CacheItem)
      → length (set items i x) ≡ length items
  length-set [] i x = refl
  length-set (y ∷ items) zero x = refl
  length-set (y ∷ items) (suc i) x = ap suc (length-set items i x)

  by_cache :
      (s : DictBase) (offset : ℕ) (d : Bytes)
      → IsCache s
      → read_article contents types offset (size_at offset) ≡ some d
      → (o : Option Bytes) → find_cached s.cache offset ≡ o
      → (t : DictBase) × (get_word_data contents s offset (size_at offset) ≡ some (t, d))
        × IsCache t
  unfolding get_word_data
  by_cache s offset d c e (some found) h =
      let same : found ≡ d =
        some-injective found d (sym (find_cached_lem s.cache offset found c.items h) ∙ e) in
      (s, rw (h, get_word_data) (rw same refl), c)
  by_cache s offset d c e none h =
      let item : CacheItem = record { offset = offset; data_of = d } in
      let t : DictBase = record s {
        cache = set s.cache s.cache_cur (some item);
        cache_cur = next_slot s.cache_cur;
      } in
      (
        t,
        rw (h, get_word_data) (rw c.same_types (rw e refl)),
        record {
          same_types = c.same_types;
          places = omega (arith, length-set s.cache s.cache_cur (some item), c.places);
          in_range = ground (arith, c.in_range);
          items = All-set s.cache s.cache_cur (some item) c.items e;
        },
      )

  -- If every offset is always asked for with the same size, the cache changes no answer: an article
  -- that can be read is returned, from the cache or the file, and what the cache holds stays right,
  -- with the place to write next inside it.
  pub get_word_data-read_article :
      (s : DictBase) (offset : ℕ) (d : Bytes)
      → IsCache s
      → read_article contents types offset (size_at offset) ≡ some d
      → (t : DictBase) × (get_word_data contents s offset (size_at offset) ≡ some (t, d))
        × IsCache t
  get_word_data-read_article s offset d c e =
      by_cache s offset d c e (find_cached s.cache offset) refl
