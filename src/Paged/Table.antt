-- ===== src/Paged/Table.antt =====
-- The offset table of a paged index: entry `j` is where page `j` starts, and the last is the end of
-- the file (source_codes/stardictd/src/lib/stddict.cpp, the loops of the two `load`).
use stardictd.Base.{
  ℕ, zero, suc, ◌+◌, ◌*◌, ◌-◌, ◌%◌, ◌^◌, ◌<◌, ◌≡◌, refl, ◌≢◌, ap, arith, List, [], ◌∷◌, some,
  length, length-append, take, get_elem?, All, ◌==◌, Bool-cases, inl, inr, ◌∙◌, if◌then◌else◌,
}
use stardictd.IdxFile.Layout.{
  RawEntry, encode, encode_entry, IsEntry, strlen-encode, drop-encode, length-encode_entry,
}
use stardictd.Paged.{page_offsets, entr_per_page}

-- Where entry `k` starts.
abbrev pub start_of : List RawEntry → ℕ → ℕ
start_of [] k = 0
start_of (e ∷ es) zero = 0
start_of (e ∷ es) (suc k) = length (encode_entry e) + start_of es k

pub start_of-take : (es : List RawEntry) (k : ℕ) → start_of es k ≡ length (encode (take k es))
start_of-take [] zero = refl
start_of-take [] (suc k) = refl
start_of-take (e ∷ es) zero = refl
start_of-take (e ∷ es) (suc k) =
    omega (arith, start_of-take es k, length-append (encode_entry e) (encode (take k es)))

-- How many entries lie between entry `i` and the next start of a page.
abbrev pub gap : ℕ → ℕ
gap i = (entr_per_page - i % entr_per_page) % entr_per_page

abbrev pub table : List RawEntry → ℕ → ℕ → List ℕ
table [] i pos = (pos % 2 ^ 32) ∷ []
table (e ∷ es) i pos =
    let rest = table es (i + 1) (pos + length (encode_entry e)) in
    if i % entr_per_page == 0 then (pos % 2 ^ 32) ∷ rest else rest

pub page_offsets-table :
    (fields : ℕ) (es : List RawEntry) (i pos : ℕ)
    → All (IsEntry (4 * fields)) es
    → page_offsets fields (length es) i pos (encode es) ≡ some (table es i pos)
unfolding page_offsets
page_offsets-table fields [] i pos h = refl
page_offsets-table fields (e ∷ es) i pos h =
    let w = 4 * fields in
    let size = length-encode_entry w e h.0 in
    rw (strlen-encode w e es h.0) (
      rw (drop-encode w e es h.0) (
        rw (← size)
          (rw (page_offsets-table fields es (i + 1) (pos + length (encode_entry e)) h.1) refl)))

-- One entry more: the lemma at the entries behind it gives the lemma at all of them.
module _ (x : RawEntry) (es : List RawEntry) (i pos : ℕ)
    (fits : pos + length (encode (x ∷ es)) < 2 ^ 32)
    (ih : (j k : ℕ)
      → k ≡ 32 * j + gap (i + 1)
      → k < length es + 32
      → get_elem? (table es (i + 1) (pos + length (encode_entry x))) j
        ≡ some (pos + length (encode_entry x) + start_of es k)) where
  next :
      (j k : ℕ)
      → suc k ≡ 32 * j + gap (i + 1) + 1
      → k < length es + 32
      → get_elem? (table es (i + 1) (pos + length (encode_entry x))) j
        ≡ some (pos + start_of (x ∷ es) (suc k))
  next j k e lt = ih j k (omega arith) lt ∙ ap some (omega arith)

  page_start :
      (j k : ℕ)
      → i % 32 ≡ 0
      → k ≡ 32 * j
      → k < suc (length es) + 32
      → get_elem? ((pos % 2 ^ 32) ∷ table es (i + 1) (pos + length (encode_entry x))) j
        ≡ some (pos + start_of (x ∷ es) k)
  page_start zero zero z e lt = ap some (omega arith)
  page_start zero (suc k) z e lt = absurd (omega arith)
  page_start (suc j) zero z e lt = absurd (omega arith)
  page_start (suc j) (suc k) z e lt = next j k (omega arith) (omega arith)

  inside_page :
      (j k : ℕ)
      → i % 32 ≢ 0
      → k ≡ 32 * j + gap i
      → k < suc (length es) + 32
      → get_elem? (table es (i + 1) (pos + length (encode_entry x))) j
        ≡ some (pos + start_of (x ∷ es) k)
  inside_page j zero z e lt = absurd (omega arith)
  inside_page j (suc k) z e lt = next j k (omega arith) (omega arith)

-- The next page starts behind the entries that are left of this one.
table-get :
    (es : List RawEntry) (i pos j k : ℕ)
    → pos + length (encode es) < 2 ^ 32
    → k ≡ 32 * j + gap i
    → k < length es + 32
    → get_elem? (table es i pos) j ≡ some (pos + start_of es k)
table-get [] i pos zero k fits e lt = ap some (omega arith)
table-get [] i pos (suc j) k fits e lt = absurd (omega arith)
table-get (x ∷ es) i pos j k fits e lt =
    let size : pos + length (encode_entry x) + length (encode es) < 2 ^ 32 =
      omega (arith, length-append (encode_entry x) (encode es)) in
    let ih = λ (j k : ℕ). table-get es (i + 1) (pos + length (encode_entry x)) j k size in
    elim (Bool-cases (i % entr_per_page == 0)) [
      | inl starts ↦ rw starts (page_start x es i pos fits ih j k (ground arith) (ground arith) lt)
      | inr within ↦ rw within (inside_page x es i pos fits ih j k (ground arith) e lt)
    ]

-- Entry `j` of the table of a whole file.
pub table_entry :
    (es : List RawEntry) (j : ℕ)
    → length (encode es) < 2 ^ 32
    → 32 * j < length es + 32
    → get_elem? (table es 0 0) j ≡ some (start_of es (32 * j))
table_entry es j fits lt =
    rw (table-get es 0 0 j (32 * j) (omega arith) (omega arith) lt) (ap some (omega arith))
