-- ===== src/Tests/Masks.antt =====
-- The dictionaries of a user with three uids (source_codes/stardictd/src/lib/stddict.cpp).
use stardictd.Base.{ℕ, [], ◌∷◌, ◌≡◌, refl, map, take, Bytes, codes}
use stardictd.Base.Int.{pos}
use stardictd.Conf.{Map}
use stardictd.Libs.Mask.{DictInfoDictItem, uid_list, set_server_dictmask}
use stardictd.Libs.Mask.Allowed.{entry, allowed, set_server_dictmask-allowed}

abbrev uidmap : Map DictInfoDictItem
uidmap =
    (codes "a", record { id = 4; level = 0 })
    ∷ (codes "b", record { id = 5; level = 3 })
    ∷ (codes "c", record { id = 6; level = 1 })
    ∷ []

uids : uid_list (codes "c  b a x") [] ≡ codes "c" ∷ codes "b" ∷ codes "a" ∷ codes "x" ∷ []
unfolding uid_list
uids = refl

set_server_dictmask-allowed_example :
    set_server_dictmask uidmap (codes "c  b a x") (pos 8) (pos 1)
    ≡ map entry (take 8 (allowed uidmap 1 (uid_list (codes "c  b a x") [])))
set_server_dictmask-allowed_example = set_server_dictmask-allowed uidmap (codes "c  b a x") 8 1

abbrev escaped_name : ℕ → Bytes
escaped_name id = codes "dictionary"

abbrev narticles : ℕ → ℕ
narticles id = 10
