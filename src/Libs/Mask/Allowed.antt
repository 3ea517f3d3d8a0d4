-- ===== src/Libs/Mask/Allowed.antt =====
-- The mask and its description hold the dictionaries that the user may use
-- (source_codes/stardictd/src/lib/stddict.cpp).
use stardictd.Base.{
  ℕ, ◌+◌, ◌<◌, ◌^◌, List, [], ◌∷◌, ◌++◌, ◌≡◌, refl, map, take, Option, none, some, Bytes, arith,
  leb, if◌then◌else◌, zero, suc,
}
use stardictd.Base.Int.{pos}
use stardictd.Conf.{Map, find}
use stardictd.Libs.{InstantDictIndex, local_dict}
use stardictd.Libs.Mask.{DictInfoDictItem, uid_list, mask_on, set_server_dictmask, short_info}

abbrev pub entry : Bytes × DictInfoDictItem → InstantDictIndex
entry known = record { type_of = local_dict; index = known.1.id }

module _ (uidmap : Map DictInfoDictItem) where
  -- The uids that are known and whose dictionary's level is at most the user's, with their items.
  abbrev pub allowed : ℕ → List Bytes → List (Bytes × DictInfoDictItem)
  allowed level [] = []
  allowed level (uid ∷ uids) = elim (find uid uidmap) [
    | none ↦ allowed level uids
    | some item ↦
        let rest = allowed level uids in if leb item.level level then (uid, item) ∷ rest else rest
  ]

  -- One round, from what is found for the uid and from the rounds behind it.
  round_lem :
      (max level k : ℕ) (uid : Bytes) (uids : List Bytes) (count : ℕ) (o : Option DictInfoDictItem)
      → find uid uidmap ≡ o
      → max ≡ count + k
      → mask_on uidmap (pos max) (pos level) uids count ≡ map entry (take k (allowed level uids))
      → ((m : ℕ)
          → k ≡ suc m
          → mask_on uidmap (pos max) (pos level) uids (count + 1)
            ≡ map entry (take m (allowed level uids)))
      → mask_on uidmap (pos max) (pos level) (uid ∷ uids) count
        ≡ map entry (take k (allowed level (uid ∷ uids)))
  unfolding mask_on
  round_lem max level k uid uids count none found room same next = ground (arith, found, same)
  round_lem max level zero uid uids count (some item) found room same next = ground (arith, found)
  round_lem max level (suc m) uid uids count (some item) found room same next =
      ground (arith, found, same, next m refl)

  mask_on-allowed :
      (max level k : ℕ) (uids : List Bytes) (count : ℕ)
      → max ≡ count + k
      → mask_on uidmap (pos max) (pos level) uids count ≡ map entry (take k (allowed level uids))
  unfolding mask_on
  mask_on-allowed max level zero [] count room = refl
  mask_on-allowed max level (suc k) [] count room = refl
  mask_on-allowed max level k (uid ∷ uids) count room =
      round_lem max level k uid uids count (find uid uidmap) refl room
        (mask_on-allowed max level k uids count room)
        (λ m e. mask_on-allowed max level m uids (count + 1) (omega arith))

  -- The mask of a user of level `level` who may have `max` dictionaries is the first `max` of the
  -- dictionaries in his list that are known and whose level is at most his.
  pub set_server_dictmask-allowed :
      (dicts : Bytes) (max level : ℕ)
      → set_server_dictmask uidmap dicts (pos max) (pos level)
        ≡ map entry (take max (allowed level (uid_list dicts [])))
  unfolding set_server_dictmask
  set_server_dictmask-allowed dicts max level =
      mask_on-allowed max level max (uid_list dicts []) 0 (omega arith)

  -- A level fits into an `int`.
  abbrev pub HasIntLevels : Type 0
  HasIntLevels =
      (uid : Bytes) (item : DictInfoDictItem) → find uid uidmap ≡ some item → item.level < 2 ^ 31

  module _ (escaped_name : ℕ → Bytes) (narticles : ℕ → ℕ) where
    -- The descriptions, one behind the other.
    abbrev pub described : List (Bytes × DictInfoDictItem) → Bytes
    described [] = []
    described (known ∷ rest) =
        short_info uidmap escaped_name narticles known.0 known.1 ++ described rest
