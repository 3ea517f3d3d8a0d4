-- ===== src/Paged/Opened/Loaded.antt =====
-- Opening a well-formed index file (source_codes/stardictd/src/lib/stddict.cpp, `load` of
-- `offset_index` and `synonym_file`, and `get_first_on_page_key`).
use stardictd.Base.{
  ℕ, ◌*◌, ◌-◌, ◌/◌, ◌<◌, ◌≡◌, refl, ap, arith, List, some, none, length, map, length-map,
}
use stardictd.IdxFile.Layout.{IsNetworkOrder}
use stardictd.Paged.Access.{load, assign_keys, opened}
use stardictd.Paged.Opened.Keys.{key_at, get_key_lem, read_first_lem}
use stardictd.Paged.Opened.{IsDictionary, IsOpen, page_count_lem}
use stardictd.Paged.Page.{raw, file_of, raw-IsEntry}
use stardictd.Paged.Table.{table, table_entry, page_offsets-table}
use stardictd.Paged.{PageEntry, Paged, get_first_on_page_key, page_offsets}

abbrev pub last_page : List PageEntry → ℕ
last_page xs = (length xs - 1) / 32

-- The four keys in memory are those of the first, the last and the middle page, and of the last
-- entry.
pub record HasKeys (xs : List PageEntry) (s : Paged) : Type 0 where
  pub at_first : s.first ≡ record { idx = 0; keystr = key_at xs 0 }
  pub at_last : s.last ≡ record { idx = last_page xs; keystr = key_at xs (32 * last_page xs) }
  pub at_middle :
      s.middle ≡ record { idx = last_page xs / 2; keystr = key_at xs (32 * (last_page xs / 2)) }
  pub at_end : s.real_last ≡ record { idx = length xs - 1; keystr = key_at xs (length xs - 1) }

-- A page's first key comes from memory or from the file, and is the same.
pub get_first_lem :
    {fields : ℕ} {xs : List PageEntry} (s : Paged) (p : ℕ)
    → IsDictionary fields xs
    → IsOpen xs s
    → HasKeys xs s
    → 32 * p < length xs
    → get_first_on_page_key fields s p ≡ some (key_at xs (32 * p))
unfolding get_first_on_page_key
get_first_lem {xs = xs} s p d o k lt =
    rw (k.at_first, k.at_last, k.at_middle)
      (ground
        (arith, read_first_lem s p d o lt, same 0, same (last_page xs), same (last_page xs / 2)))
  where
    same : (q : ℕ) → p ≡ q → key_at xs (32 * q) ≡ key_at xs (32 * p)
    same q e = rw e

pub opened-IsOpen :
    {fields : ℕ} {xs : List PageEntry}
    → IsDictionary fields xs
    → IsOpen xs (opened (length xs) (table (map raw xs) 0 0) (file_of xs))
opened-IsOpen {xs = xs} d = record {
  count = refl;
  pages = refl;
  starts = λ j lt. table_entry (map raw xs) j d.small (let e = length-map raw xs in omega arith);
  contents = refl;
  fresh = λ p e. absurd (ground arith);
}

module _ (g_ntohl : ℕ → ℕ) (law : IsNetworkOrder g_ntohl) {fields : ℕ} {xs : List PageEntry}
    (d : IsDictionary fields xs) where
  assign_keys_lem :
      (s : Paged)
      → IsOpen xs s
      → (t : Paged) × (assign_keys g_ntohl fields s ≡ some t) × IsOpen xs t × HasKeys xs t
  unfolding assign_keys
  assign_keys_lem s o =
      let p = s.npages - 2 in
      let n = s.wordcount - 1 in
      let at_p : p ≡ last_page xs = omega (arith, o.pages, page_count_lem d) in
      let at_n : n ≡ length xs - 1 = omega (arith, o.count) in
      let (t, runs, loads) = get_key_lem g_ntohl law d s n o (omega (arith, d.has_entry)) in
      let still = loads.still_open in
      (
        record t {
          first = record { idx = 0; keystr = key_at xs 0 };
          last = record { idx = p; keystr = key_at xs (32 * p) };
          middle = record { idx = p / 2; keystr = key_at xs (32 * (p / 2)) };
          real_last = record { idx = n; keystr = key_at xs n };
        },
        rw (read_first_lem s 0 d o (omega (arith, d.has_entry))) (
            rw (read_first_lem s p d o (omega (arith, d.has_entry)))
              (rw (read_first_lem s (p / 2) d o (omega (arith, d.has_entry))) (rw runs))),
        record {
          count = still.count;
          pages = still.pages;
          starts = still.starts;
          contents = still.contents;
          fresh = still.fresh;
        },
        record {
          at_first = refl;
          at_last = ap (λ q. record { idx = q; keystr = key_at xs (32 * q) }) at_p;
          at_middle = ap (λ q. record { idx = q / 2; keystr = key_at xs (32 * (q / 2)) }) at_p;
          at_end = ap (λ q. record { idx = q; keystr = key_at xs q }) at_n;
        },
      )

  -- A well-formed file is opened with no cached table; the state holds its entries and four keys.
  pub load_lem :
      (s : Paged) × (load g_ntohl fields none (some (file_of xs)) (length xs) ≡ some s)
      × IsOpen xs s
      × HasKeys xs s
  unfolding load
  load_lem =
      let (t, runs, open_t, keys) =
        assign_keys_lem (opened (length xs) (table (map raw xs) 0 0) (file_of xs))
          (opened-IsOpen d) in
      let built : page_offsets fields (length xs) 0 0 (file_of xs) ≡ some (table (map raw xs) 0 0) =
        rw (length-map raw xs) at
          (page_offsets-table fields (map raw xs) 0 0 (raw-IsEntry fields xs d.items)) in
      (t, rw built runs, open_t, keys)
