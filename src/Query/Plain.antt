-- ===== src/Query/Plain.antt =====
-- Queries without a backslash (source_codes/stardictd/src/lib/lib.cpp).
use stardictd.Base.{
  ℕ, Bool, false, ◌||◌, [], ◌∷◌, ◌++◌, append_assoc, append-nil, some, ◌≡◌, ◌≢◌, arith, Bytes,
  if◌then◌else◌, All,
}
use stardictd.Query.{simple, pattern_query, scan, analyse_query, backslash, is_wildcard}

-- Whether `*` or `?` occurs.
abbrev pub has_wildcard : Bytes → Bool
has_wildcard [] = false
has_wildcard (c ∷ s) = is_wildcard c || has_wildcard s

scan_plain :
    (s : Bytes) (pat : Bool) (res : Bytes)
    → All (λ c. c ≢ backslash) s
    → scan s pat res ≡ (has_wildcard s || pat, res ++ s)
unfolding scan
scan_plain [] pat res h = ground (arith, append-nil res)
scan_plain (c ∷ []) pat res h = ground arith
scan_plain (c ∷ d ∷ s) pat res h = ground (
  arith,
  scan_plain (d ∷ s) (is_wildcard c || pat) (res ++ c ∷ []) h.1,
  append_assoc res (c ∷ []) (d ∷ s),
)

-- A query with no backslash that does not begin with `/`, `:` or `|` keeps its text, and is a
-- pattern query exactly when `*` or `?` occurs in it.
pub analyse_query_plain :
    (c : ℕ) (s : Bytes)
    → c ≢ b'/'
    → c ≢ b':'
    → c ≢ b'|'
    → All (λ c. c ≢ backslash) (c ∷ s)
    → analyse_query (some (c ∷ s)) ≡ (if has_wildcard (c ∷ s) then pattern_query else simple, c ∷ s)
unfolding analyse_query
analyse_query_plain c s n1 n2 n3 h = ground (arith, scan_plain (c ∷ s) false [] h)
