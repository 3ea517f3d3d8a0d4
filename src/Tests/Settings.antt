-- ===== src/Tests/Settings.antt =====
-- The settings of a small stardictd.conf (source_codes/stardictd/src/conf.cpp).
use stardictd.Base.{◌≡◌, refl, none, some, codes, eqb, All, if◌then◌else◌}
use stardictd.Base.Int.{pos}
use stardictd.Conf.Values.{Configured, conf-Configured}
use stardictd.Conf.{KeyFile, settings, conf, get_int, get_str, read_settings}

-- A file that sets the port and the password of the database.
abbrev key_file : KeyFile
key_file = record {
  get_integer = λ g k. if eqb k (codes "port") then some (pos 99) else none;
  get_string = λ g k. if eqb k (codes "password") then some (codes "secret") else none;
  get_boolean = λ g k. none;
}

values :
    ((get_int (conf (some key_file)) (codes "server/port")).1 ≡ pos 99)
    × ((get_int (conf (some key_file)) (codes "client/delay_time")).1 ≡ pos 7)
    × ((get_str (conf (some key_file)) (codes "root-user/password")).1 ≡ codes "secret")
    × ((get_int (conf none) (codes "server/ports")).1 ≡ pos 0)
unfolding get_int get_str conf read_settings
values = (refl, refl, refl, refl)

conf-Configured_example : All (Configured key_file) settings
conf-Configured_example = conf-Configured key_file
