-- ===== src/IdxFile/Layout.antt =====
-- Index files as the dictionary format describes them, written entry by entry, and what the reading
-- functions give back on them (source_codes/stardictd/src/lib/stddict.cpp).
use stardictd.Base.{
  ℕ, ◌+◌, ◌*◌, ◌/◌, ◌%◌, ◌^◌, ◌<◌, ◌≡◌, ◌∙◌, sym, refl, arith, List, [], ◌∷◌, ◌++◌, append_assoc,
  some, Bytes, IsText, length, length-append, drop, drop_past, ap,
}
use stardictd.IdxFile.{strlen, c_string, get_network}

-- A key and the data bytes behind it.
pub record RawEntry : Type 0 where
  pub key : Bytes
  pub extra : Bytes

abbrev pub encode_entry : RawEntry → Bytes
encode_entry e = e.key ++ (0 ∷ e.extra)

abbrev pub encode : List RawEntry → Bytes
encode [] = []
encode (e ∷ es) = encode_entry e ++ encode es

-- Keys hold no terminator and every entry has the same number of data bytes.
abbrev pub IsEntry : ℕ → RawEntry → Type 0
IsEntry w e = IsText e.key × (length e.extra ≡ w)

pub strlen-append : (k rest : Bytes) → IsText k → strlen (k ++ (0 ∷ rest)) ≡ some (length k)
unfolding strlen
strlen-append [] rest h = refl
strlen-append (c ∷ k) rest h = ground (arith, strlen-append k rest h.1)

pub c_string-append : (k rest : Bytes) → IsText k → c_string (k ++ (0 ∷ rest)) ≡ some k
unfolding c_string
c_string-append [] rest h = refl
c_string-append (c ∷ k) rest h = ground (arith, c_string-append k rest h.1)

pub length-encode_entry :
    (w : ℕ) (e : RawEntry) → IsEntry w e → length (encode_entry e) ≡ length e.key + 1 + w
length-encode_entry w e h = omega (arith, length-append e.key (0 ∷ e.extra))

pub encode-cons :
    (e : RawEntry) (es : List RawEntry) → encode (e ∷ es) ≡ e.key ++ (0 ∷ (e.extra ++ encode es))
encode-cons e es = append_assoc e.key (0 ∷ e.extra) (encode es)

pub strlen-encode :
    (w : ℕ) (e : RawEntry) (es : List RawEntry)
    → IsEntry w e
    → strlen (encode (e ∷ es)) ≡ some (length e.key)
strlen-encode w e es h = rw (encode-cons e es) (strlen-append e.key _ h.0)

pub c_string-encode :
    (w : ℕ) (e : RawEntry) (es : List RawEntry)
    → IsEntry w e
    → c_string (encode (e ∷ es)) ≡ some e.key
c_string-encode w e es h = rw (encode-cons e es) (c_string-append e.key _ h.0)

-- Stepping over an entry leads to the next one.
pub drop-encode :
    (w : ℕ) (e : RawEntry) (es : List RawEntry)
    → IsEntry w e
    → drop (length e.key + 1 + w) (encode (e ∷ es)) ≡ encode es
drop-encode w e es h = rw (← length-encode_entry w e h) (drop_past (encode_entry e) (encode es))

-- Stepping over a key and its terminator leads to the data bytes.
pub drop_key : (k rest : Bytes) → drop (length k + 1) (k ++ (0 ∷ rest)) ≡ rest
drop_key k rest =
    let size : length k + 1 ≡ length (k ++ 0 ∷ []) = omega (arith, length-append k (0 ∷ [])) in
    rw size (rw (sym (append_assoc k (0 ∷ []) rest)) (drop_past (k ++ 0 ∷ []) rest))

-- A number as four bytes, most significant first.
abbrev pub network : ℕ → Bytes
network n = (n / 16777216 % 256) ∷ (n / 65536 % 256) ∷ (n / 256 % 256) ∷ (n % 256) ∷ []

-- What `g_ntohl` is documented to do on a little-endian host: it reverses the bytes.
abbrev pub IsNetworkOrder : (ℕ → ℕ) → Type 0
IsNetworkOrder g_ntohl =
    (a b c d : ℕ)
    → a < 256
    → b < 256
    → c < 256
    → d < 256
    → g_ntohl (a + 256 * (b + 256 * (c + 256 * d))) ≡ d + 256 * (c + 256 * (b + 256 * a))

pub get_network-network :
    (g_ntohl : ℕ → ℕ)
    → IsNetworkOrder g_ntohl
    → (n : ℕ) (rest : Bytes) → n < 2 ^ 32
    → get_network g_ntohl (network n ++ rest) ≡ some n
unfolding get_network
get_network-network g_ntohl law n rest small =
    let swapped =
      law (n / 16777216 % 256) (n / 65536 % 256) (n / 256 % 256) (n % 256) (omega arith)
        (omega arith) (omega arith) (omega arith) in
    ap some (swapped ∙ omega arith)
