-- ===== src/Main.antt =====
-- The state of source_codes/stardictd/src/stardictdmain.cpp that the commands of a client change:
-- the chosen dictionaries, the collation, the language and the level of the user. The dictionaries
-- themselves (`o_libs`) and the answers to words are the interfaces `Dictionaries` and `Answers`.
use stardictd.Base.{zero, suc, Bool, List, Option, Bytes, if◌then◌else◌}
use stardictd.Base.Int.{ℤ, pos, negsuc, eqb_ℤ}
use stardictd.Conf.{Map}
use stardictd.Libs.{InstantDictIndex}
use stardictd.Libs.Mask.{DictInfoDictItem, set_server_dictmask}

pub record Dictionaries (L : Type 0) : Type 0 where
  pub uidmap : L → Map DictInfoDictItem
  pub load_collate_file : List InstantDictIndex → ℤ → L → L
  pub get_dir_info : Bytes → L → Option Bytes × L
  pub get_fromto_info : L → Bytes
  pub get_dict_info : Bytes → Bool → L → Option Bytes × L
  pub get_dicts_list : Bytes → ℤ → ℤ → L → Bytes × L

pub record Main (L : Type 0) : Type 0 where
  pub o_libs : L
  pub query_dictmask : List InstantDictIndex
  pub scan_dictmask : List InstantDictIndex
  pub servercollatefunc : ℤ
  pub user_lang : Bytes
  pub user_level : ℤ

-- What is sent for a word; the answers read the state and change nothing that a later command reads
-- but what is in memory.
pub record Answers (L : Type 0) : Type 0 where
  pub lookup : Bytes → ℤ → Main L → List Bytes × L
  pub query : Bytes → Main L → List Bytes × L
  pub selectquery : Bytes → Main L → List Bytes × L
  pub smartquery : Bytes → ℤ → Main L → List Bytes × L
  pub define : Bytes → Main L → List Bytes × L
  pub previous : Bytes → ℤ → Main L → List Bytes × L
  pub next : Bytes → ℤ → Main L → List Bytes × L

-- One less.
abbrev pub pred_ℤ : ℤ → ℤ
pred_ℤ (pos zero) = negsuc 0
pred_ℤ (pos (suc n)) = pos n
pred_ℤ (negsuc n) = negsuc (suc n)

module _ {L : Type 0} (dictionaries : Dictionaries L) where
  unfoldable pub set_dict_mask : Bytes → ℤ → ℤ → Main L → Main L
  set_dict_mask dicts max level m =
      let mask = set_server_dictmask (dictionaries.uidmap m.o_libs) dicts max level in
      record m { query_dictmask = mask; scan_dictmask = mask }

  unfoldable pub set_server_collate_func : ℤ → Main L → Main L
  set_server_collate_func func m =
      let m' = record m { servercollatefunc = func } in
      if eqb_ℤ func (pos 0) then m' else record m' {
        o_libs = dictionaries.load_collate_file m.query_dictmask (pred_ℤ func) m.o_libs;
      }

unfoldable pub set_user_lang : {L : Type 0} → Bytes → Main L → Main L
set_user_lang lang m = record m { user_lang = lang }

unfoldable pub set_user_level : {L : Type 0} → ℤ → Main L → Main L
set_user_level level m = record m { user_level = level }
