-- ===== src/Paged/Page.antt =====
-- What a page of a well-formed index file holds (source_codes/stardictd/src/lib/stddict.cpp,
-- `page_t::fill` and `load_page`).
use stardictd.Base.{
  ℕ, zero, suc, ◌+◌, ◌*◌, ◌^◌, ◌<◌, ◌≡◌, refl, ◌∙◌, sym, ap, arith, List, [], ◌∷◌, ◌++◌, some,
  Bytes, length, drop, take, All, map, IsText, drop_append, take_append, drop_past,
}
use stardictd.IdxFile.Layout.{
  RawEntry, encode, encode_entry, encode-cons, IsEntry, strlen-encode, c_string-encode, drop_key,
  network, IsNetworkOrder, get_network-network,
}
use stardictd.Paged.{PageEntry, get_fields, fill}
use stardictd.Paged.Table.{start_of}

-- The numbers behind a key, as the file holds them.
abbrev pub networks : List ℕ → Bytes
networks [] = []
networks (v ∷ vs) = network v ++ networks vs

abbrev pub raw : PageEntry → RawEntry
raw e = record { key = e.keystr; extra = networks e.values }

abbrev pub file_of : List PageEntry → Bytes
file_of xs = encode (map raw xs)

-- Keys hold no terminator and are shorter than 256 bytes; `fields` numbers of 32 bits follow.
abbrev pub IsItem : ℕ → PageEntry → Type 0
IsItem fields e =
    IsText e.keystr
    × (length e.keystr < 256)
    × (length e.values ≡ fields)
    × All (λ v. v < 2 ^ 32) e.values

length-networks : (vs : List ℕ) → length (networks vs) ≡ 4 * length vs
length-networks [] = refl
length-networks (v ∷ vs) = omega (arith, length-networks vs)

pub raw-IsEntry :
    (fields : ℕ) (xs : List PageEntry)
    → All (IsItem fields) xs
    → All (IsEntry (4 * fields)) (map raw xs)
raw-IsEntry fields [] h = tt
raw-IsEntry fields (x ∷ xs) h =
    ((h.0.0, omega (arith, length-networks x.values, h.0.2)), raw-IsEntry fields xs h.1)

module _ (g_ntohl : ℕ → ℕ) (law : IsNetworkOrder g_ntohl) where
  get_fields-networks :
      (vs : List ℕ) (rest : Bytes)
      → All (λ v. v < 2 ^ 32) vs
      → get_fields g_ntohl (length vs) (networks vs ++ rest) ≡ some vs
  unfolding get_fields
  get_fields-networks [] rest h = refl
  get_fields-networks (v ∷ vs) rest h =
      rw (get_network-network g_ntohl law v (networks vs ++ rest) h.0)
        (rw (get_fields-networks vs rest h.1))

  pub fill-encode :
      (fields : ℕ) (xs : List PageEntry)
      → All (IsItem fields) xs
      → fill g_ntohl fields (length xs) (file_of xs) ≡ some xs
  unfolding fill
  fill-encode fields [] h = refl
  fill-encode fields (x ∷ xs) h =
      let e : IsEntry (4 * fields) (raw x) = (raw-IsEntry fields (x ∷ xs) h).0 in
      let skip : drop (length x.keystr + 1) (file_of (x ∷ xs)) ≡ networks x.values ++ file_of xs =
        rw (encode-cons (raw x) (map raw xs)) (drop_key x.keystr _) in
      let values : get_fields g_ntohl fields (networks x.values ++ file_of xs) ≡ some x.values =
        rw (sym h.0.2) (get_fields-networks x.values (file_of xs) h.0.3) in
      let next : drop (4 * fields) (networks x.values ++ file_of xs) ≡ file_of xs =
        rw (sym e.1) (drop_past (networks x.values) (file_of xs)) in
      rw (strlen-encode (4 * fields) (raw x) (map raw xs) e) (
        rw (c_string-encode (4 * fields) (raw x) (map raw xs) e)
          (rw skip (rw values (rw next (rw (fill-encode fields xs h.1))))))

-- Cutting the file at the start of an entry.
pub drop-start_of :
    (es : List RawEntry) (k : ℕ) → drop (start_of es k) (encode es) ≡ encode (drop k es)
drop-start_of [] zero = refl
drop-start_of [] (suc k) = refl
drop-start_of (e ∷ es) zero = refl
drop-start_of (e ∷ es) (suc k) =
    drop_append (encode_entry e) (encode es) _ (start_of es k) refl ∙ drop-start_of es k

pub take-start_of :
    (es : List RawEntry) (k : ℕ) → take (start_of es k) (encode es) ≡ encode (take k es)
take-start_of [] zero = refl
take-start_of [] (suc k) = refl
take-start_of (e ∷ es) zero = refl
take-start_of (e ∷ es) (suc k) =
    take_append (encode_entry e) (encode es) _ (start_of es k) refl
    ∙ ap (λ r. encode_entry e ++ r) (take-start_of es k)

pub start_of-add :
    (es : List RawEntry) (a b m : ℕ)
    → m ≡ a + b
    → start_of es m ≡ start_of es a + start_of (drop a es) b
start_of-add [] zero b m e = omega arith
start_of-add [] (suc a) b m e = omega arith
start_of-add (x ∷ es) zero b m e = let same : m ≡ b = omega arith in rw same (omega arith)
start_of-add (x ∷ es) (suc a) b zero e = absurd (omega arith)
start_of-add (x ∷ es) (suc a) b (suc m) e = omega (arith, start_of-add es a b m (omega arith))
