-- ===== src/Tests/Spellings.antt =====
-- A file of four words, and words that are in it in another spelling
-- (source_codes/stardictd/src/lib/stddict.cpp, `Libs`).
use stardictd.Base.{
  ℕ, zero, suc, ◌-◌, Bool, true, false, List, [], ◌∷◌, ◌≡◌, refl, map, Option, none, some, Bytes,
  codes, eqb, leb, ◌&&◌, if◌then◌else◌, get_elem?,
}
use stardictd.Base.Int.{ℤ, pos, negsuc}
use stardictd.Lookup.{invalid_index}
use stardictd.Libs.Similar.{
  Cases, Speller, is_pure_english, try, try_other, try_form, try_cut, ending, cut_s_or_d, cut_ly,
  cut_ing, cut_es, cut_ed, cut_ied, cut_ies, cut_er, cut_est, other_forms, other_cases, walk_same,
  same_here, near, lookup_similar_word, lookup_synonym_similar_word, simple_lookup_word,
}
use stardictd.Libs.Similar.Found.{IsOther, IsHit}
use stardictd.Libs.Similar.Endings.{other_forms-IsOther}
use stardictd.Tests.Platform.{lower}

abbrev is_capital : ℕ → Bool
is_capital a = leb b'A' a && leb a b'Z'

abbrev upper : ℕ → ℕ
upper a = if leb b'a' a && leb a b'z' then a - 32 else a

abbrev ascii_cases : Cases
ascii_cases = record {
  utf8_strdown = map lower;
  utf8_strup = map upper;
  first_char = λ s. 1;
  ascii_strdown = map lower;
  ascii_isupper = is_capital;
}

abbrev words : List Bytes
words = codes "City" ∷ codes "fly" ∷ codes "stop" ∷ codes "walk" ∷ []

abbrev found_in : Bytes → ℕ → List Bytes → Bool × ℤ × ℤ
found_in s i [] = (false, invalid_index, pos 0)
found_in s i (w ∷ ws) =
    let rest = found_in s (suc i) ws in if eqb w s then (true, pos i, pos i) else rest

abbrev word_at : ℤ → Option Bytes
word_at (pos i) = get_elem? words i
word_at (negsuc n) = none

abbrev before : ℤ → Bool × ℤ
before (pos zero) = (false, pos 0)
before (pos (suc i)) = (true, pos i)
before (negsuc n) = (true, pos 3)

abbrev speller : Speller
speller = record {
  wordcount = 4;
  lookup = λ s. found_in s 0 words;
  get_word_prev = before;
  get_word = word_at;
  casecmp = λ a b. eqb (map lower a) (map lower b);
}

spelled :
    (simple_lookup_word ascii_cases speller (codes "stopped") ≡ some (some (pos 2), pos 2))
    × (simple_lookup_word ascii_cases speller (codes "WALKING") ≡ some (some (pos 3), pos 3))
    × (simple_lookup_word ascii_cases speller (codes "flies") ≡ some (some (pos 1), pos 1))
    × (simple_lookup_word ascii_cases speller (codes "city") ≡ some (some (pos 0), pos 0))
    × (simple_lookup_word ascii_cases speller (codes "river") ≡ some (none, pos 0))
unfolding simple_lookup_word lookup_similar_word near same_here walk_same other_cases other_forms
    cut_s_or_d cut_ly cut_ing cut_es cut_ed cut_ied cut_ies cut_er cut_est ending try_cut try_form
    try_other try is_pure_english
spelled = (refl, refl, refl, refl, refl)

-- A synonym that differs in case only is found by the walk, before any lookup has set `iIndex_suggest`.
unset_suggest :
    lookup_synonym_similar_word
      (record ascii_cases { utf8_strdown = λ s. s; utf8_strup = λ s. s })
      speller
      (codes "WALK")
      (pos 77)
      invalid_index
      (pos 0)
    ≡ some (some (pos 3), pos 77)
unfolding lookup_synonym_similar_word near same_here walk_same other_cases try_other try
unset_suggest = refl

other_forms-IsOther_example :
    (w : Bytes) × IsOther ascii_cases speller (codes "stopped") w
    × IsHit ascii_cases speller (codes "stopped") w (pos 2)
unfolding other_cases other_forms cut_s_or_d cut_ly cut_ing cut_es cut_ed cut_ied cut_ies cut_er
    cut_est ending try_cut try_form try_other try is_pure_english
other_forms-IsOther_example =
    other_forms-IsOther ascii_cases speller (codes "stopped") (pos 0) (pos 2) (pos 2) refl
