-- ===== src/Libs/Next/Plain.antt =====
-- The loops of `Libs::poGetNextWord` and `Libs::poGetPreWord` of
-- source_codes/stardictd/src/lib/stddict.cpp as they are if a word stays where it was read: what the
-- loops over pages are compared with.
use stardictd.Base.{
  ℕ, suc, Bool, ◌&&◌, List, [], ◌∷◌, Option, some, ◌>>=◌, Bytes, ◌==◌, if◌then◌else◌,
}
use stardictd.Compare.{Comparison}
use stardictd.Libs.{Place}
use stardictd.Libs.Next.{Held, hold, advance}

-- A loop that looks for a word.
unfoldable pub read_plain :
    Comparison
    → (Place → Option Place)
    → (Place → Option (Option Bytes))
    → Bool
    → ℕ
    → List Place
    → Held
    → Option (List Place × Held)
read_plain collate seek read is_lib i [] held = some ([], held)
read_plain collate seek read is_lib i (p ∷ ps) held = do
  p' ← seek p
  c ← read p'
  r ← read_plain collate seek read is_lib (suc i) ps (hold collate held c i is_lib)
  some (p' ∷ r.0, r.1)

-- A loop that changes the places one by one.
unfoldable pub for_each : (ℕ → Place → Option Place) → ℕ → List Place → Option (List Place)
for_each f i [] = some []
for_each f i (p ∷ ps) = do p' ← f i p; rest ← for_each f (suc i) ps; some (p' ∷ rest)

-- The place of the word is left for the end.
unfoldable pub advance_plain :
    (Place → Option (Option Bytes))
    → (Place → Option Place)
    → Bytes
    → Bool
    → ℕ
    → ℕ
    → Place
    → Option Place
advance_plain read move word is_here k i p =
    let advanced = advance read move word p in if is_here && i == k then some p else advanced

unfoldable pub move_plain : (Place → Option Place) → ℕ → ℕ → Place → Option Place
move_plain move k i p = let moved = move p in if i == k then moved else some p
