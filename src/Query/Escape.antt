-- ===== src/Query/Escape.antt =====
-- Escaped texts as queries (source_codes/stardictd/src/lib/lib.cpp).
use stardictd.Base.{
  ℕ, Bool, false, [], ◌∷◌, ◌++◌, append_assoc, append-nil, some, ◌≡◌, refl, sym, arith, Bytes,
}
use stardictd.Query.{simple, scan, analyse_query, escape_byte, escape_loop, stardict_input_escape}

abbrev escaped : Bytes → Bytes
escaped [] = []
escaped (c ∷ s) = escape_byte c ++ escaped s

escape_loop-escaped : (s res : Bytes) → escape_loop s res ≡ res ++ escaped s
unfolding escape_loop
escape_loop-escaped [] res = sym (append-nil res)
escape_loop-escaped (c ∷ s) res = simp (escape_loop-escaped s, append_assoc)

scan-cons :
    (c : ℕ) (s : Bytes) (pat : Bool) (res : Bytes)
    → scan (escape_byte c ++ s) pat res ≡ scan s pat (res ++ c ∷ [])
unfolding scan
scan-cons c [] pat res = ground arith
scan-cons c (d ∷ s) pat res = ground arith

scan-escaped : (s : Bytes) (pat : Bool) (res : Bytes) → scan (escaped s) pat res ≡ (pat, res ++ s)
scan-escaped [] pat res = unfold scan in rw append-nil
scan-escaped (c ∷ s) pat res = simp (scan-cons, scan-escaped s, append_assoc)

-- Whatever bytes a text holds, its escaped form is analysed as a simple query whose word is the
-- text itself: no leading query mark and no wildcard takes effect.
pub analyse_query-stardict_input_escape :
    (text : Bytes) → analyse_query (some (stardict_input_escape text)) ≡ (simple, text)
unfolding analyse_query stardict_input_escape
analyse_query-stardict_input_escape [] = refl
analyse_query-stardict_input_escape (c ∷ s) = ground (
  arith,
  escape_loop-escaped s (b'\\' ∷ c ∷ []),
  escape_loop-escaped (c ∷ s) [],
  scan-escaped s false (c ∷ []),
  scan-cons c (escaped s) false [],
)
