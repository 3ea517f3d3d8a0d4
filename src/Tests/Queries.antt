-- ===== src/Tests/Queries.antt =====
-- Runs of the query analysis (source_codes/stardictd/src/lib/lib.cpp).
use stardictd.Base.{[], none, some, ◌≡◌, refl, codes}
use stardictd.Query.{
  simple, pattern_query, fuzzy, regex, full_text, analyse_query, stardict_input_escape,
}
use stardictd.Query.Escape.{analyse_query-stardict_input_escape}

kinds :
    (analyse_query none ≡ (simple, []))
    × (analyse_query (some (codes "/word")) ≡ (fuzzy, codes "word"))
    × (analyse_query (some (codes ":^a")) ≡ (regex, codes "^a"))
    × (analyse_query (some (codes "|text")) ≡ (full_text, codes "text"))
    × (analyse_query (some (codes "wo?d")) ≡ (pattern_query, codes "wo?d"))
    × (analyse_query (some (codes "wo\\?d\\")) ≡ (simple, codes "wo?d"))
unfolding analyse_query
kinds = (refl, refl, refl, refl, refl, refl)

escaping : stardict_input_escape (codes "/a*b\\") ≡ codes "\\/a\\*b\\\\"
unfolding stardict_input_escape
escaping = refl

analyse_query-stardict_input_escape_example :
    analyse_query (some (stardict_input_escape (codes "/a*"))) ≡ (simple, codes "/a*")
analyse_query-stardict_input_escape_example = analyse_query-stardict_input_escape (codes "/a*")
