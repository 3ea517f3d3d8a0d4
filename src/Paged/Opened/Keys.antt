-- ===== src/Paged/Opened/Keys.antt =====
-- Reading keys: `get_key`, and the short read of a page's first key
-- (source_codes/stardictd/src/lib/stddict.cpp).
use stardictd.Base.{
  ℕ, zero, suc, ◌+◌, ◌*◌, ◌/◌, ◌%◌, ◌<◌, ◌≤◌, ◌≡◌, refl, ◌∙◌, sym, arith, List, [], ◌∷◌, ◌++◌, some,
  Bytes, length, drop, take, get_elem?, get_or, All, map, ◌==◌, IsText, true, Bool-cases, inl, inr,
  get_elem?-take, get_elem?-drop, drop-map, get_elem?-eq-get_or, length-append, length-take, ltb,
}
use stardictd.IdxFile.{c_string}
use stardictd.IdxFile.Layout.{encode_entry, length-encode_entry, encode-cons, IsNetworkOrder}
use stardictd.Paged.Opened.{IsDictionary, IsOpen, page_of, Loads, load_page_lem, page_bytes}
use stardictd.Paged.Page.{raw, file_of, IsItem, networks, drop-start_of, raw-IsEntry}
use stardictd.Paged.{
  PageEntry, Paged, get_key, has_zero, check_key_str_len, read_first_on_page_key, checked_key,
  read_size,
}

abbrev pub no_item : PageEntry
no_item = record { keystr = []; values = [] }

abbrev pub item_at : List PageEntry → ℕ → PageEntry
item_at xs i = get_or xs i no_item

abbrev pub key_at : List PageEntry → ℕ → Bytes
key_at xs i = (item_at xs i).keystr

pub get_elem?-page_of :
    (xs : List PageEntry) (p r i : ℕ)
    → i ≡ 32 * p + r
    → r < 32
    → i < length xs
    → get_elem? (page_of xs p) r ≡ some (item_at xs i)
get_elem?-page_of xs p r i e lt inside =
    get_elem?-take (drop (32 * p) xs) 32 r lt
    ∙ get_elem?-drop xs (32 * p) r i e
    ∙ get_elem?-eq-get_or xs i no_item inside

module _ (g_ntohl : ℕ → ℕ) (law : IsNetworkOrder g_ntohl) {fields : ℕ} {xs : List PageEntry}
    (d : IsDictionary fields xs) where
  -- Every entry is read with its numbers, whatever page is in memory.
  pub get_key_lem :
      (s : Paged) (i : ℕ)
      → IsOpen xs s
      → i < length xs
      → (t : Paged) × (get_key g_ntohl fields s i ≡ some (t, item_at xs i))
        × Loads g_ntohl law d s t (i / 32)
  unfolding get_key
  get_key_lem s i o lt =
      let (t, runs, loads) = load_page_lem g_ntohl law d s (i / 32) o (omega arith) in
      (
        t,
        rw runs (
            rw loads.holds
              (rw (get_elem?-page_of xs (i / 32) (i % 32) i (omega arith) (omega arith) lt))),
        loads,
      )

-- A short read that covers the key and its terminator.
has_zero-take :
    (k rest : Bytes) (n m : ℕ) → length k < n → n ≤ m → has_zero n (take m (k ++ (0 ∷ rest))) ≡ true
unfolding has_zero
has_zero-take k rest zero m lt le = absurd (omega arith)
has_zero-take k rest (suc n) zero lt le = absurd (omega arith)
has_zero-take [] rest (suc n) (suc m) lt le = refl
has_zero-take (c ∷ k) rest (suc n) (suc m) lt le =
    ground (arith, has_zero-take k rest n m (omega arith) (omega arith))

c_string-take :
    (k rest : Bytes) (m : ℕ)
    → IsText k
    → length k < m
    → c_string (take m (k ++ (0 ∷ rest))) ≡ some k
unfolding c_string
c_string-take k rest zero h lt = absurd (omega arith)
c_string-take [] rest (suc m) h lt = refl
c_string-take (c ∷ k) rest (suc m) h lt = ground (arith, c_string-take k rest m h.1 (omega arith))

-- From a place inside the list on, there is the element there and the rest.
drop_cons :
    (xs : List PageEntry) (n : ℕ) → n < length xs → drop n xs ≡ item_at xs n ∷ drop (suc n) xs
drop_cons [] n lt = absurd (omega arith)
drop_cons (x ∷ xs) zero lt = refl
drop_cons (x ∷ xs) (suc n) lt = drop_cons xs n (omega arith)

All-item_at :
    (fields : ℕ) (xs : List PageEntry) (n : ℕ)
    → All (IsItem fields) xs
    → n < length xs
    → IsItem fields (item_at xs n)
All-item_at fields [] n h lt = absurd (omega arith)
All-item_at fields (x ∷ xs) zero h lt = h.0
All-item_at fields (x ∷ xs) (suc n) h lt = All-item_at fields xs n h.1 (omega arith)

full_read : (buf : Bytes) (m : ℕ) → m ≤ length buf → (length (take m buf) == m) ≡ true
full_read buf m le = ground (arith, length-take m buf)

key_ends :
    (k rest : Bytes) (m : ℕ)
    → length k < 256
    → length k < m
    → check_key_str_len (take m (k ++ (0 ∷ rest))) m ≡ true
unfolding check_key_str_len
key_ends k rest m small lt = elim (Bool-cases (ltb m 256)) [
  | inl short ↦ rw short (has_zero-take k rest m m lt (omega arith))
  | inr long ↦ rw long (has_zero-take k rest 256 m small (ground arith))
]

-- The test and the string, on the bytes read.
checked_key_lem :
    (k rest : Bytes) (m : ℕ)
    → IsText k
    → length k < 256
    → length k < m
    → m ≤ length (k ++ (0 ∷ rest))
    → checked_key (take m (k ++ (0 ∷ rest))) m ≡ some k
unfolding checked_key
checked_key_lem k rest m h small lt le =
    rw (full_read (k ++ (0 ∷ rest)) m le)
      (unfold check_key_str_len in rw (key_ends k rest m small lt) (c_string-take k rest m h lt))

-- The read covers the first key of the page with its terminator, and stays within the page.
read_size_bounds :
    (fields size len : ℕ)
    → len + 1 + 4 * fields ≤ size
    → len < 256
    → (len < read_size fields size) × (read_size fields size ≤ size)
read_size_bounds fields size len le small = ground arith

length-raw :
    (fields : ℕ) (x : PageEntry) (xs : List PageEntry)
    → IsItem fields x
    → length x.keystr + 1 + 4 * fields ≤ length (file_of (x ∷ xs))
length-raw fields x xs h = omega (
  arith,
  length-encode_entry (4 * fields) (raw x) (raw-IsEntry fields (x ∷ []) (h, tt)).0,
  length-append (encode_entry (raw x)) (file_of xs),
)

file_of-take : (n : ℕ) (xs : List PageEntry) → length (file_of (take n xs)) ≤ length (file_of xs)
file_of-take zero xs = omega arith
file_of-take (suc n) [] = omega arith
file_of-take (suc n) (x ∷ xs) = omega (
  arith,
  file_of-take n xs,
  length-append (encode_entry (raw x)) (file_of xs),
  length-append (encode_entry (raw x)) (file_of (take n xs)),
)

-- The short read of an entry with others behind it.
entry_read :
    (fields size : ℕ) (x : PageEntry) (xs : List PageEntry)
    → IsItem fields x
    → length x.keystr + 1 + 4 * fields ≤ size
    → size ≤ length (file_of (x ∷ xs))
    → checked_key (take (read_size fields size) (file_of (x ∷ xs))) (read_size fields size)
      ≡ some x.keystr
entry_read fields size x xs h le fits =
    let bounds = read_size_bounds fields size (length x.keystr) le h.1 in
    rw (encode-cons (raw x) (map raw xs)) (
      checked_key_lem x.keystr (networks x.values ++ file_of xs) (read_size fields size) h.0 h.1
        bounds.0 (rw (sym (encode-cons (raw x) (map raw xs))) (omega (arith, bounds.1))))

-- The first key of every page is read.
pub read_first_lem :
    {fields : ℕ} {xs : List PageEntry} (s : Paged) (p : ℕ)
    → IsDictionary fields xs
    → IsOpen xs s
    → 32 * p < length xs
    → read_first_on_page_key fields s p ≡ some (key_at xs (32 * p))
unfolding read_first_on_page_key
read_first_lem {fields} {xs} s p d o lt = rw (o.starts p (omega arith)) (
    rw (o.starts (p + 1) (omega arith)) (
      rw (page_bytes xs p d, o.contents)
        (rw (drop-start_of (map raw xs) (32 * p)) (
          rw (drop-map raw (32 * p) xs) (
            rw (drop_cons xs (32 * p) lt) (
              let x = item_at xs (32 * p) in
              let ys = drop (suc (32 * p)) xs in
              let item = All-item_at fields xs (32 * p) d.items lt in
              entry_read fields (length (file_of (x ∷ take 31 ys))) x ys item
                (length-raw fields x (take 31 ys) item)
                (omega (
                  arith,
                  file_of-take 31 ys,
                  length-append (encode_entry (raw x)) (file_of (take 31 ys)),
                  length-append (encode_entry (raw x)) (file_of ys),
                ))))))))
