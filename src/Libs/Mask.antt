-- ===== src/Libs/Mask.antt =====
-- The dictionaries of a user (`Libs` of source_codes/stardictd/src/lib/stddict.cpp): the mask that
-- his list of uids makes, and the text that describes it. `uidmap` has an item for each dictionary;
-- the names and the counts of the dictionaries and glib's `g_markup_escape_text` are parameters.
pub mod Allowed
use stardictd.Base.{
  ℕ, ◌+◌, Bool, true, false, ◌&&◌, ◌||◌, not, List, [], ◌∷◌, ◌++◌, Option, none, some, Bytes, codes,
  ltb, leb, ◌==◌, if◌then◌else◌,
}
use stardictd.Base.Int.{ℤ, pos, negsuc, ltb_ℤ}
use stardictd.Base.Decimal.{print_nat, to_int}
use stardictd.Conf.{Map, find}
use stardictd.Libs.{InstantDictIndex, local_dict}

pub record DictInfoDictItem : Type 0 where
  pub id : ℕ
  pub level : ℕ

-- The texts between the blanks, without the empty ones; `uid` is the one that is being read.
abbrev pub push : Bytes → List Bytes → List Bytes
push [] uids = uids
push (c ∷ uid) uids = (c ∷ uid) ∷ uids

unfoldable pub uid_list : Bytes → Bytes → List Bytes
uid_list [] uid = push uid []
uid_list (c ∷ dicts) uid =
    let next_uid = push uid (uid_list dicts []) in
    let same_uid = uid_list dicts (uid ++ c ∷ []) in if c == b' ' then next_uid else same_uid

module _ (uidmap : Map DictInfoDictItem) where
  -- The loop of `SetServerDictMask` over the uids; a negative `max` or `user_level` is no bound.
  unfoldable pub mask_on : ℤ → ℤ → List Bytes → ℕ → List InstantDictIndex
  mask_on max user_level [] count = []
  mask_on max user_level (uid ∷ uids) count = elim (find uid uidmap) [
    | none ↦ mask_on max user_level uids count
    | some item ↦
        let skipped = mask_on max user_level uids count in
        let chosen =
          record { type_of = local_dict; index = item.id }
          ∷ mask_on max user_level uids (count + 1) in
        if not (ltb_ℤ max (pos 0)) && not (ltb_ℤ (pos count) max)
        then []
        else (if not (ltb_ℤ user_level (pos 0)) && ltb_ℤ user_level (pos item.level)
            then skipped
            else chosen)
  ]

  unfoldable pub set_server_dictmask : Bytes → ℤ → ℤ → List InstantDictIndex
  set_server_dictmask dicts max user_level = mask_on max user_level (uid_list dicts []) 0

  -- `get_dict_level`: the level as an `int`, -1 for a uid that is not known.
  unfoldable pub get_dict_level : Bytes → ℤ
  get_dict_level uid = elim (find uid uidmap) [ none ↦ negsuc 0 | some item ↦ to_int item.level ]

  module _ (escaped_name : ℕ → Bytes) (narticles : ℕ → ℕ) where
    -- `get_dict_info` for a short description.
    unfoldable pub short_info : Bytes → DictInfoDictItem → Bytes
    short_info uid item =
        codes "<dict><uid>"
        ++ uid
        ++ codes "</uid><bookname>"
        ++ escaped_name item.id
        ++ codes "</bookname><wordcount>"
        ++ print_nat (narticles item.id)
        ++ codes "</wordcount></dict>"

    unfoldable pub get_short_info : Bytes → Option Bytes
    get_short_info uid = elim (find uid uidmap) [
      | none ↦ none
      | some item ↦ some (short_info uid item)
    ]

    -- The loop of `get_dicts_list`.
    unfoldable pub list_on : ℤ → ℤ → List Bytes → ℕ → Bytes
    list_on max user_level [] count = []
    list_on max user_level (uid ∷ uids) count =
        let level = get_dict_level uid in
        let skipped = list_on max user_level uids count in
        let rest = list_on max user_level uids (count + 1) in
        if ltb_ℤ level (pos 0) || ltb_ℤ user_level level
        then skipped
        else elim (get_short_info uid) [
          | none ↦ skipped
          | some text ↦ if not (ltb_ℤ (pos count) max) then [] else text ++ rest
        ]

    unfoldable pub get_dicts_list : Bytes → ℤ → ℤ → Bytes
    get_dicts_list dictmask max user_level = list_on max user_level (uid_list dictmask []) 0
