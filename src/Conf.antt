-- ===== src/Conf.antt =====
-- `Conf` of source_codes/stardictd/src/conf.cpp: the settings of the server, with defaults that
-- stardictd.conf overrides. glib's key file is a parameter: what `g_key_file_get_integer` and the
-- like return, `none` for an error or NULL. The map keys are the group and the name with a `/`.
pub mod Values
use stardictd.Base.{
  ℕ, Bool, true, false, List, [], ◌∷◌, ◌++◌, Option, none, some, Bytes, codes, eqb, if◌then◌else◌,
}
use stardictd.Base.Int.{ℤ, pos}

pub record KeyFile : Type 0 where
  pub get_integer : Bytes → Bytes → Option ℤ
  pub get_string : Bytes → Bytes → Option Bytes
  pub get_boolean : Bytes → Bytes → Option Bool

-- `std::map` with texts as keys.
abbrev pub Map : Type 0 → Type 0
Map A = List (Bytes × A)

abbrev pub find : {A : Type 0} → Bytes → Map A → Option A
find q [] = none
find q (e ∷ es) = let rest = find q es in if eqb e.0 q then some (e.1) else rest

-- `map[key] = value`
abbrev pub put : {A : Type 0} → Bytes → A → Map A → Map A
put q a [] = (q, a) ∷ []
put q a (e ∷ es) = let rest = put q a es in if eqb e.0 q then (q, a) ∷ es else e ∷ rest

pub record Conf : Type 0 where
  pub bool_map : Map Bool
  pub int_map : Map ℤ
  pub str_map : Map Bytes

-- One setting that the constructor reads from the key file: its group and its name.
pub data Setting : Type 0 where
  integer text boolean : Bytes → Bytes → Setting

abbrev pub path : Bytes → Bytes → Bytes
path group name = group ++ (b'/' ∷ name)

abbrev pub put_read : {A : Type 0} → Bytes → Option A → Map A → Map A
put_read q none m = m
put_read q (some a) m = put q a m

unfoldable pub read_setting : KeyFile → Setting → Conf → Conf
read_setting file (integer g k) c = record c {
  int_map = put_read (path g k) (file.get_integer g k) c.int_map;
}
read_setting file (text g k) c = record c {
  str_map = put_read (path g k) (file.get_string g k) c.str_map;
}
read_setting file (boolean g k) c = record c {
  bool_map = put_read (path g k) (file.get_boolean g k) c.bool_map;
}

unfoldable pub read_settings : KeyFile → List Setting → Conf → Conf
unfolding read_setting
read_settings file [] c = c
read_settings file (s ∷ ss) c = read_settings file ss (read_setting file s c)

abbrev pub defaults : Conf
defaults = record {
  bool_map = (codes "level-0-user/enable_collate", false) ∷ [];
  int_map =
      (codes "server/process_limit", pos 300)
      ∷ (codes "server/port", pos 2629)
      ∷ (codes "server/log_level", pos 4)
      ∷ (codes "database/port", pos 3306)
      ∷ (codes "client/delay_time", pos 7)
      ∷ (codes "client/max_cost_time", pos 30)
      ∷ (codes "level-0-user/max_dict_count", pos 8)
      ∷ (codes "level-1-user/max_dict_count", pos 15)
      ∷ (codes "level-2-user/max_dict_count", pos 25)
      ∷ (codes "level-3-user/max_dict_count", pos 35)
      ∷ (codes "level-4-user/max_dict_count", pos 45)
      ∷ (codes "level-5-user/max_dict_count", pos 55)
      ∷ [];
  str_map =
      (codes "database/host", codes "localhost")
      ∷ (codes "database/user", codes "stardict")
      ∷ (codes "database/password", [])
      ∷ (codes "database/dbname", codes "stardict")
      ∷ (
        codes "info/ad_info",
        codes "<title>Upgrade Now!</title><url>http://www.stardict.org/finance.php</url>",
      )
      ∷ (codes "guest-user/dictmask", [])
      ∷ (codes "root-user/password", [])
      ∷ [];
}

-- The settings in the order in which they are read.
abbrev pub settings : List Setting
settings =
    integer (codes "server") (codes "process_limit")
    ∷ integer (codes "server") (codes "port")
    ∷ integer (codes "server") (codes "log_level")
    ∷ text (codes "database") (codes "host")
    ∷ integer (codes "database") (codes "port")
    ∷ text (codes "database") (codes "user")
    ∷ text (codes "database") (codes "password")
    ∷ text (codes "database") (codes "dbname")
    ∷ integer (codes "client") (codes "delay_time")
    ∷ integer (codes "client") (codes "max_cost_time")
    ∷ text (codes "info") (codes "ad_info")
    ∷ text (codes "guest-user") (codes "dictmask")
    ∷ boolean (codes "level-0-user") (codes "enable_collate")
    ∷ integer (codes "level-0-user") (codes "max_dict_count")
    ∷ integer (codes "level-1-user") (codes "max_dict_count")
    ∷ integer (codes "level-2-user") (codes "max_dict_count")
    ∷ integer (codes "level-3-user") (codes "max_dict_count")
    ∷ integer (codes "level-4-user") (codes "max_dict_count")
    ∷ integer (codes "level-5-user") (codes "max_dict_count")
    ∷ text (codes "root-user") (codes "password")
    ∷ []

-- The constructor; the key file is `none` when it cannot be loaded.
unfoldable pub conf : Option KeyFile → Conf
conf none = defaults
conf (some file) = read_settings file settings defaults

-- `map[key]`: a missing key is put there with the type's zero.
abbrev pub at_key : {A : Type 0} → A → Bytes → Map A → Map A × A
at_key zero_value q m = elim (find q m) [
  | some a ↦ (m, a)
  | none ↦ (put q zero_value m, zero_value)
]

unfoldable pub get_bool : Conf → Bytes → Conf × Bool
get_bool c key = let r = at_key false key c.bool_map in (record c { bool_map = r.0 }, r.1)

unfoldable pub get_int : Conf → Bytes → Conf × ℤ
get_int c key = let r = at_key (pos 0) key c.int_map in (record c { int_map = r.0 }, r.1)

unfoldable pub get_str : Conf → Bytes → Conf × Bytes
get_str c key = let r = at_key [] key c.str_map in (record c { str_map = r.0 }, r.1)
