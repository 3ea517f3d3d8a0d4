-- ===== src/Paged/Opened.antt =====
-- The state of a paged index over a well-formed file: what is always true of it, what loading a
-- page changes, and the keys that are read at the start of a page
-- (source_codes/stardictd/src/lib/stddict.cpp).
pub mod Keys
pub mod Loaded
use stardictd.Base.{
  ℕ, zero, suc, ◌+◌, ◌*◌, ◌-◌, ◌/◌, ◌%◌, ◌^◌, ◌<◌, ◌≤◌, ◌≡◌, refl, ◌∙◌, sym, ap, arith, List, [],
  ◌∷◌, ◌++◌, some, none, Bytes, length, drop, take, get_elem?, get_or, All, map, ◌==◌, ==_self,
  if◌then◌else◌, take-map, drop-map, length-map, length-take, length-drop, All-take, All-drop, true,
  false, Bool-cases, inl, inr, get_elem?-take, get_elem?-drop, get_elem?-eq-get_or, length-append,
}
use stardictd.IdxFile.Layout.{encode, IsNetworkOrder}
use stardictd.Paged.{
  PageEntry, Paged, fetch_page, load_page, get_key, page_entry_count, sub32, is_current, fill,
}
use stardictd.Paged.Access.{page_count}
use stardictd.Paged.Page.{
  raw, file_of, IsItem, fill-encode, drop-start_of, take-start_of, start_of-add,
}
use stardictd.Paged.Table.{start_of, start_of-take}

-- A file that the program can index: it has an entry, its entries are well formed, and it is
-- shorter than 4 GiB.
pub record IsDictionary (fields : ℕ) (xs : List PageEntry) : Type 0 where
  pub items : All (IsItem fields) xs
  pub has_entry : 0 < length xs
  pub small : length (file_of xs) < 2 ^ 32

abbrev pub page_of : List PageEntry → ℕ → List PageEntry
page_of xs p = take 32 (drop (32 * p) xs)

pub record IsOpen (xs : List PageEntry) (s : Paged) : Type 0 where
  pub count : s.wordcount ≡ length xs
  pub pages : s.npages ≡ page_count (length xs)
  pub starts :
      (j : ℕ)
      → 32 * j < length xs + 32
      → get_elem? s.wordoffset j ≡ some (start_of (map raw xs) (32 * j))
  pub contents : s.file ≡ file_of xs
  pub fresh : (p : ℕ) → is_current s.page_idx p ≡ true → s.entries ≡ page_of xs p

length-le-encode : (xs : List PageEntry) → length xs ≤ length (file_of xs)
length-le-encode [] = omega arith
length-le-encode (x ∷ xs) = omega (
  arith,
  length-le-encode xs,
  length-append (x.keystr ++ (0 ∷ (raw x).extra)) (file_of xs),
  length-append x.keystr (0 ∷ (raw x).extra),
)

pub length-lt : {fields : ℕ} {xs : List PageEntry} → IsDictionary fields xs → length xs < 2 ^ 32
length-lt {xs = xs} d = omega (arith, length-le-encode xs, d.small)

pub page_count_lem :
    {fields : ℕ} {xs : List PageEntry}
    → IsDictionary fields xs
    → page_count (length xs) ≡ (length xs - 1) / 32 + 2
page_count_lem d = omega (arith, length-lt d, d.has_entry)

pub length-page_of : (xs : List PageEntry) (p : ℕ) → 32 * p < length xs → length (page_of xs p) ≤ 32
length-page_of xs p lt = omega (arith, length-take 32 (drop (32 * p) xs))

-- The page count that `load_page` computes is the number of entries on the page.
page_entry_count_lem :
    {fields : ℕ} {xs : List PageEntry} (s : Paged) (p : ℕ)
    → IsDictionary fields xs
    → IsOpen xs s
    → 32 * p < length xs
    → page_entry_count s p ≡ length (page_of xs p)
page_entry_count_lem {xs = xs} s p d o lt = ground (
  arith,
  o.count,
  o.pages,
  page_count_lem d,
  length-take 32 (drop (32 * p) xs),
  length-drop (32 * p) xs,
)

start_of-le : (xs : List PageEntry) (k : ℕ) → start_of (map raw xs) k ≤ length (file_of xs)
start_of-le [] k = omega arith
start_of-le (x ∷ xs) zero = omega arith
start_of-le (x ∷ xs) (suc k) =
    omega (arith, start_of-le xs k, length-append (x.keystr ++ (0 ∷ (raw x).extra)) (file_of xs))

-- A page of the file is the file of the page's entries.
page_slice :
    (xs : List PageEntry) (p : ℕ) → take 32 (drop (32 * p) (map raw xs)) ≡ map raw (page_of xs p)
page_slice xs p = rw (drop-map raw (32 * p) xs) (take-map raw 32 (drop (32 * p) xs))

page_size_lem :
    (xs : List PageEntry) (p : ℕ)
    → start_of (drop (32 * p) (map raw xs)) 32 ≡ length (file_of (page_of xs p))
page_size_lem xs p =
    start_of-take (drop (32 * p) (map raw xs)) 32 ∙ ap (λ r. length (encode r)) (page_slice xs p)

-- The difference of two neighbouring offsets is the size of the page.
pub page_bytes :
    {fields : ℕ} (xs : List PageEntry) (p : ℕ)
    → IsDictionary fields xs
    → sub32 (start_of (map raw xs) (32 * (p + 1))) (start_of (map raw xs) (32 * p))
      ≡ length (file_of (page_of xs p))
page_bytes xs p d = omega (
  arith,
  d.small,
  page_size_lem xs p,
  start_of-le xs (32 * p),
  start_of-le xs (32 * (p + 1)),
  start_of-add (map raw xs) (32 * p) 32 (32 * (p + 1)) (omega arith),
)

-- What a read of that size at the page's offset gives.
page_read :
    (xs : List PageEntry) (p : ℕ)
    → take (length (file_of (page_of xs p))) (drop (start_of (map raw xs) (32 * p)) (file_of xs))
      ≡ file_of (page_of xs p)
page_read xs p = rw (drop-start_of (map raw xs) (32 * p)) (
    rw (sym (page_size_lem xs p))
      (take-start_of (drop (32 * p) (map raw xs)) 32 ∙ ap encode (page_slice xs p)))

module _ (g_ntohl : ℕ → ℕ) (law : IsNetworkOrder g_ntohl) {fields : ℕ} {xs : List PageEntry}
    (d : IsDictionary fields xs) where
  fetch_page_lem :
      (s : Paged) (p : ℕ)
      → IsOpen xs s
      → 32 * p < length xs
      → fetch_page g_ntohl fields s p (length (page_of xs p))
        ≡ some (record s { page_idx = some p; entries = page_of xs p })
  unfolding fetch_page
  fetch_page_lem s p o lt =
      let ok =
        All-take (IsItem fields) 32 (drop (32 * p) xs)
          (All-drop (IsItem fields) (32 * p) xs d.items) in
      rw (o.starts p (omega arith)) (
        rw (o.starts (p + 1) (omega arith)) (
          rw (page_bytes xs p d, o.contents)
            (rw (page_read xs p, ==_self (length (file_of (page_of xs p))))
              (rw (fill-encode g_ntohl law fields (page_of xs p) ok)))))

  -- What loading a page leaves as it was, and what it makes of the rest.
  pub record Loads (s t : Paged) (p : ℕ) : Type 0 where
    pub still_open : IsOpen xs t
    pub holds : t.entries ≡ page_of xs p
    pub changes : t ≡ record s { page_idx = t.page_idx; entries = t.entries }

  -- Every page of the file can be loaded, whatever page was in memory before, and holds its entries.
  pub load_page_lem :
      (s : Paged) (p : ℕ)
      → IsOpen xs s
      → 32 * p < length xs
      → (t : Paged) × (load_page g_ntohl fields s p ≡ some (t, length (page_of xs p))) × Loads s t p
  unfolding load_page
  load_page_lem s p o lt = elim (Bool-cases (is_current s.page_idx p)) [
    | inl kept ↦ (
      s,
      rw kept (rw (page_entry_count_lem s p d o lt)),
      record { still_open = o; holds = o.fresh p kept; changes = refl },
    )
    | inr other ↦ (
      record s { page_idx = some p; entries = page_of xs p },
      rw other (rw (page_entry_count_lem s p d o lt) (rw (fetch_page_lem s p o lt))),
      record {
        still_open = record {
          count = o.count;
          pages = o.pages;
          starts = o.starts;
          contents = o.contents;
          fresh = λ q e. let same : q ≡ p = ground arith in rw same;
        };
        holds = refl;
        changes = refl;
      },
    )
  ]
