-- ===== src/Tests/Comparisons.antt =====
-- Runs of the comparisons and of the prefix count, and their theorems at inputs
-- (source_codes/stardictd/src/lib/stddict.cpp).
use stardictd.Base.{◌≡◌, refl, codes, arith}
use stardictd.Compare.Order.{stardict_server_collate-IsOrder, IsOrder}
use stardictd.Compare.{Ordering, strcmp, stardict_strcmp, stardict_server_collate, stardict_casecmp}
use stardictd.Lookup.Prefix.{prefix_match, match_loop, prefix_match_fuel, prefix_match_comm}
use stardictd.Tests.Platform.{casecmp, casecmp-IsPreorder, ascii, ascii-IsUnicode}

compared :
    (stardict_strcmp casecmp (codes "Zoo") (codes "apple") ≡ Ordering.gt)
    × (stardict_strcmp casecmp (codes "Bee") (codes "bee") ≡ Ordering.lt)
    × (stardict_casecmp casecmp (λ f. strcmp) 0 0 0 (codes "Bee") (codes "bee") ≡ Ordering.eq)
    × (stardict_server_collate casecmp (λ f. strcmp) 2 0 1 (codes "Zoo") (codes "a") ≡ Ordering.lt)
unfolding stardict_strcmp stardict_casecmp stardict_server_collate strcmp
compared = (refl, refl, refl, refl)

shared : prefix_match ascii (codes "Word") (codes "wonder") ≡ 2
unfolding prefix_match
shared = refl

prefix_match_fuel_example :
    match_loop ascii 9 0 (codes "word") (codes "wonder")
    ≡ prefix_match ascii (codes "word") (codes "wonder")
prefix_match_fuel_example =
    prefix_match_fuel ascii ascii-IsUnicode 9 (codes "word") (codes "wonder") (omega arith)

prefix_match_comm_example :
    prefix_match ascii (codes "word") (codes "wonder")
    ≡ prefix_match ascii (codes "wonder") (codes "word")
prefix_match_comm_example = prefix_match_comm ascii ascii-IsUnicode (codes "word") (codes "wonder")

stardict_server_collate-IsOrder_example :
    IsOrder (stardict_server_collate casecmp (λ func. casecmp) 2 0 3)
stardict_server_collate-IsOrder_example =
    stardict_server_collate-IsOrder casecmp (λ func. casecmp) 2 0 3 casecmp-IsPreorder
      (λ f. casecmp-IsPreorder)
