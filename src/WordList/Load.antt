-- ===== src/WordList/Load.antt =====
-- What `wordlist_index::load` makes of a well-formed file
-- (source_codes/stardictd/src/lib/stddict.cpp).
use stardictd.Base.{
  ℕ, zero, suc, ◌+◌, ◌<◌, ◌^◌, ◌≡◌, refl, arith, List, [], ◌∷◌, ◌++◌, append-nil, some, Bytes,
  length, drop, take, take_past, get_or, All, map, IsText, ◌==◌, ==_self, true,
}
use stardictd.IdxFile.Layout.{
  RawEntry, encode, IsEntry, strlen-encode, c_string-encode, drop-encode, drop_key, encode-cons,
  network, get_network-network, IsNetworkOrder,
}
use stardictd.WordList.{WordList, entry_starts, load, get_key, get_data}

-- The rests of the file from each entry on, and the end.
abbrev pub starts : List RawEntry → List Bytes
starts [] = [] ∷ []
starts (e ∷ es) = encode (e ∷ es) ∷ starts es

pub length-starts : (es : List RawEntry) → length (starts es) ≡ length es + 1
length-starts [] = refl
length-starts (e ∷ es) = omega (arith, length-starts es)

entry_starts-encode :
    (es : List RawEntry)
    → All (IsEntry 8) es
    → entry_starts (length es) (encode es) ≡ some (starts es)
unfolding entry_starts
entry_starts-encode [] h = refl
entry_starts-encode (e ∷ es) h =
    rw (strlen-encode 8 e es h.0, drop-encode 8 e es h.0, entry_starts-encode es h.1)

-- A well-formed file of `es` entries with the announced size is loaded, and each entry is found.
pub load-encode :
    (es : List RawEntry)
    → All (IsEntry 8) es
    → load (some (encode es)) (length es) (length (encode es))
      ≡ some (record { wordcount = length es; wordlist = starts es })
unfolding load
load-encode es h = rw (take_all, eq_self, entry_starts-encode es h)
  where
    take_all : take (length (encode es)) (encode es) ≡ encode es
    take_all = rw (append-nil (encode es)) at (take_past (encode es) [])

    eq_self : (length (encode es) == length (encode es)) ≡ true
    eq_self = ==_self (length (encode es))

abbrev pub loaded : List RawEntry → WordList
loaded es = record { wordcount = length es; wordlist = starts es }

abbrev pub no_entry : RawEntry
no_entry = record { key = []; extra = [] }

abbrev pub key_at : List RawEntry → ℕ → Bytes
key_at es i = (get_or es i no_entry).key

pub get_key-loaded :
    (es : List RawEntry) (i : ℕ)
    → All (IsEntry 8) es
    → i < length es
    → get_key (loaded es) i ≡ some (key_at es i)
unfolding get_key
get_key-loaded [] i h lt = absurd (omega arith)
get_key-loaded (e ∷ es) zero h lt = c_string-encode 8 e es h.0
get_key-loaded (e ∷ es) (suc i) h lt = get_key-loaded es i h.1 (omega arith)

-- A key with its article's place, as the dictionary compiler writes it.
pub record Article : Type 0 where
  pub word : Bytes
  pub offset : ℕ
  pub size : ℕ

abbrev pub entry_of : Article → RawEntry
entry_of a = record { key = a.word; extra = network a.offset ++ network a.size }

abbrev pub IsArticle : Article → Type 0
IsArticle a = IsText a.word × (a.offset < 2 ^ 32) × (a.size < 2 ^ 32)

abbrev pub no_article : Article
no_article = record { word = []; offset = 0; size = 0 }

pub All-entry_of : (xs : List Article) → All IsArticle xs → All (IsEntry 8) (map entry_of xs)
All-entry_of [] h = tt
All-entry_of (a ∷ xs) h = ((h.0.0, refl), All-entry_of xs h.1)

pub get_data-entry_of :
    (g_ntohl : ℕ → ℕ) (law : IsNetworkOrder g_ntohl) (xs : List Article) (i : ℕ)
    → All IsArticle xs
    → i < length xs
    → get_data g_ntohl (loaded (map entry_of xs)) i
      ≡ some ((get_or xs i no_article).offset, (get_or xs i no_article).size)
unfolding get_data
get_data-entry_of g_ntohl law [] i h lt = absurd (omega arith)
get_data-entry_of g_ntohl law (a ∷ xs) zero h lt =
    let rest = encode (map entry_of xs) in
    let e = entry_of a in
    let tail : Bytes = network a.size ++ rest in
    let skip : drop (length a.word + 1) (encode (e ∷ map entry_of xs)) ≡ network a.offset ++ tail =
      rw (encode-cons e (map entry_of xs)) (drop_key a.word (network a.offset ++ tail)) in
    let first = get_network-network g_ntohl law a.offset tail h.0.1 in
    let second = get_network-network g_ntohl law a.size rest h.0.2 in
    rw (strlen-encode 8 e (map entry_of xs) (h.0.0, refl)) (rw skip (rw first (rw second)))
get_data-entry_of g_ntohl law (a ∷ xs) (suc i) h lt =
    get_data-entry_of g_ntohl law xs i h.1 (omega arith)
