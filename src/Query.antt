-- ===== src/Query.antt =====
-- source_codes/stardictd/src/lib/lib.cpp: what kind of query a line of input is (`analyse_query`),
-- and how a text is written so that it is looked up literally (`stardict_input_escape`).
-- A `const char *` is an `Option`: `none` is NULL. An output parameter is part of the result.
pub mod Escape
pub mod Plain
use stardictd.Base.{
  ℕ, Bool, true, false, ◌||◌, [], ◌∷◌, ◌++◌, Option, none, some, Bytes, ◌==◌, if◌then◌else◌,
}

pub data QueryType : Type 0 where
  simple pattern_query fuzzy regex full_text : QueryType

abbrev pub backslash : ℕ
backslash = b'\\'

abbrev pub is_wildcard : ℕ → Bool
is_wildcard c = c == b'*' || c == b'?'

-- The loop of `analyse_query`: `pattern` and `res` so far. A backslash at the very end is dropped.
unfoldable pub scan : Bytes → Bool → Bytes → Bool × Bytes
scan [] pat res = (pat, res)
scan (c ∷ []) pat res = if c == backslash then (pat, res) else (is_wildcard c || pat, res ++ c ∷ [])
scan (c ∷ d ∷ s) pat res = elim (c == backslash) [
  | true ↦ scan s pat (res ++ d ∷ [])
  | false ↦ scan (d ∷ s) (is_wildcard c || pat) (res ++ c ∷ [])
]

abbrev pub answer : Bool × Bytes → QueryType × Bytes
answer (pat, res) = (if pat then pattern_query else simple, res)

unfoldable pub analyse_query : Option Bytes → QueryType × Bytes
unfolding scan
analyse_query none = (simple, [])
analyse_query (some []) = (simple, [])
analyse_query (some (c ∷ s)) =
    if c == b'/'
    then (fuzzy, s)
    else if c == b':'
    then (regex, s)
    else if c == b'|'
    then (full_text, s)
    else answer (scan (c ∷ s) false [])

-- What the second loop of `stardict_input_escape` appends for one byte.
abbrev pub escape_byte : ℕ → Bytes
escape_byte c = if c == backslash || c == b'*' || c == b'?' then backslash ∷ c ∷ [] else c ∷ []

unfoldable pub escape_loop : Bytes → Bytes → Bytes
escape_loop [] res = res
escape_loop (c ∷ s) res = escape_loop s (res ++ escape_byte c)

unfoldable pub stardict_input_escape : Bytes → Bytes
unfolding escape_loop
stardict_input_escape [] = escape_loop [] []
stardict_input_escape (c ∷ s) =
    if c == b'/' || c == b'|' || c == b':'
    then escape_loop s (backslash ∷ c ∷ [])
    else escape_loop (c ∷ s) []
