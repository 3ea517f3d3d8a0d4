-- ===== src/Articles/Expand.antt =====
-- Putting the saved type marks back (source_codes/stardictd/src/lib/data.cpp,
-- `DictBase::GetWordData`).
use stardictd.Base.{
  ℕ, ◌+◌, ◌%◌, ◌^◌, ◌<◌, ◌≡◌, refl, sym, ap, arith, List, [], ◌∷◌, ◌++◌, append_assoc, some, Bytes,
  IsText, length, length-append, drop, take, drop_past, take_past, true, false, Bool-cases, inl,
  inr, if◌then◌else◌, leb, ==_self, map, All, append-nil,
}
use stardictd.Articles.{
  is_sized, host32, section_size, copy_items, last_extra, data_size, read_article,
}
use stardictd.IdxFile.{get_uint32}
use stardictd.IdxFile.Layout.{strlen-append}

-- A section of an article: its type and its content.
pub record Section : Type 0 where
  pub kind : ℕ
  pub content : Bytes

-- A section with its size or its terminator.
abbrev framed : Section → Bytes
framed x = if is_sized x.kind then host32 (length x.content) ++ x.content else x.content ++ 0 ∷ []

-- What the dictionary file holds when the types are saved: the last section has no frame.
abbrev pub packed : List Section → Bytes
packed [] = []
packed (x ∷ []) = x.content
packed (x ∷ y ∷ xs) = framed x ++ packed (y ∷ xs)

-- What the article is in full.
abbrev pub full : List Section → Bytes
full [] = []
full (x ∷ xs) = x.kind ∷ (framed x ++ full xs)

abbrev kind_of : Section → ℕ
kind_of x = x.kind

abbrev pub kinds : List Section → Bytes
kinds xs = map kind_of xs

-- A section that is not sized holds no terminator, and a sized one is shorter than 4 GiB.
abbrev pub IsSection : Section → Type 0
IsSection x = (is_sized x.kind ≡ false → IsText x.content) × (length x.content + 4 < 2 ^ 32)

host32_back : (n : ℕ) (rest : Bytes) → n < 2 ^ 32 → get_uint32 (host32 n ++ rest) ≡ some n
unfolding get_uint32
host32_back n rest small = ap some (omega arith)

section_size-framed :
    (x : Section) (rest : Bytes)
    → IsSection x
    → section_size x.kind (framed x ++ rest) ≡ some (length (framed x))
unfolding section_size
section_size-framed x rest h = elim (Bool-cases (is_sized x.kind)) [
  | inl sized ↦
      let size : (length x.content + 4) % 2 ^ 32 ≡ length (host32 (length x.content) ++ x.content) =
        omega (arith, h.1) in
      rw sized (
        rw (host32_back (length x.content) (x.content ++ rest) (omega (arith, h.1))) (ap some size))
  | inr text ↦
      let size : length x.content + 1 ≡ length (x.content ++ 0 ∷ []) =
        omega (arith, length-append x.content (0 ∷ [])) in
      rw text (
        rw (append_assoc x.content (0 ∷ []) rest)
          (rw (strlen-append x.content rest (h.0 text)) (ap some size)))
]

-- Every section: what the loop copies is the packed article with its types and frames.
copy_items-packed :
    (x : Section) (xs : List Section)
    → All IsSection (x ∷ xs)
    → copy_items (kinds (x ∷ xs)) (packed (x ∷ xs)) ≡ some (full (x ∷ xs))
unfolding copy_items
copy_items-packed x [] h = ap some (ap (λ s. x.kind ∷ s) (sym (append-nil (framed x))))
copy_items-packed x (y ∷ xs) h =
    let rest = packed (y ∷ xs) in
    let fits : leb (length (framed x)) (length (framed x ++ rest)) ≡ true =
      ground (arith, length-append (framed x) rest) in
    rw (section_size-framed x rest h.0) (
      rw (drop_past (framed x) rest)
        (rw (copy_items-packed y xs h.1) (rw fits (rw (take_past (framed x) rest) refl))))

length-full :
    (x : Section) (xs : List Section)
    → length (full (x ∷ xs))
      ≡ length (packed (x ∷ xs)) + length (kinds (x ∷ xs)) + last_extra (kinds (x ∷ xs))
length-full x [] = elim (Bool-cases (is_sized x.kind)) [
  | inl sized ↦ rw sized (omega (arith, length-append x.content []))
  | inr text ↦
      rw text
        (omega (arith, length-append (x.content ++ 0 ∷ []) [], length-append x.content (0 ∷ [])))
]
length-full x (y ∷ xs) = omega (
  arith,
  length-full y xs,
  length-append (framed x) (full (y ∷ xs)),
  length-append (framed x) (packed (y ∷ xs)),
)

chunk_at :
    (before article after : Bytes)
    → take (length article) (drop (length before) (before ++ (article ++ after))) ≡ article
chunk_at before article after = rw (drop_past before (article ++ after)) (take_past article after)

-- An article whose types are saved is returned in full: if the sections are well formed, the full
-- article is shorter than 4 GiB and the packed one stands in the file, reading it gives the full
-- article's length and then every section with its type and its frame.
pub read_article-full :
    (before after : Bytes) (x : Section) (xs : List Section)
    → All IsSection (x ∷ xs)
    → length (full (x ∷ xs)) < 2 ^ 32
    → read_article
        (before ++ (packed (x ∷ xs) ++ after))
        (kinds (x ∷ xs))
        (length before)
        (length (packed (x ∷ xs)))
      ≡ some (host32 (length (full (x ∷ xs))) ++ full (x ∷ xs))
unfolding read_article
read_article-full before after x xs h small =
    let whole = ==_self (length (packed (x ∷ xs))) in
    let size : data_size (kinds (x ∷ xs)) (length (packed (x ∷ xs))) ≡ length (full (x ∷ xs)) =
      omega (arith, length-full x xs, small) in
    rw (chunk_at before (packed (x ∷ xs)) after)
      (rw whole (rw (copy_items-packed x xs h) (ap (λ n. some (host32 n ++ full (x ∷ xs))) size)))
