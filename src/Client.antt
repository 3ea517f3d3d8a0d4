-- ===== src/Client.antt =====
-- The requests of the command line client (source_codes/stardict-client/src/command.cpp): the lines
-- that `make_command` and, for a login, `request_command` send. `encrypted` stands for `rsa_encrypt`
-- with the server's public key and `g_base64_encode`.
pub mod Requests
use stardictd.Base.{ℕ, Bool, true, false, List, [], ◌∷◌, ◌++◌, Bytes, codes, if◌then◌else◌}
use stardictd.Command.{arg_escape, newline, blank}

-- The commands with the texts that each is made of; the first of `register`, `change_passwd` and
-- `auth` is `need_md5`.
pub data Command : Type 0 where
  client : Bytes → Bytes → Command
  auth : Bool → Bytes → Bytes → Command
  lookup previous next query select_query define : Bytes → Command
  register : Bool → Bytes → Bytes → Bytes → Command
  change_passwd : Bool → Bytes → Bytes → Bytes → Command
  set_dict_mask set_collate_func set_language set_email : Bytes → Command
  get_dict_mask get_collate_func get_language get_email : Command
  max_dict_count get_user_level from_to quit : Command
  dir_info dict_info dicts_list tmp_dictmask : Bytes → Command
  user_level : Bytes → Bytes → Bytes → Command

-- The sums that a password is replaced by.
module _ (md5_hex : Bytes → Bytes) where
  abbrev pub salted_sum : Bytes → Bytes
  salted_sum passwd = md5_hex (codes "LoveCher" ++ passwd ++ codes "StarDict")

  abbrev pub sum_if : Bool → Bytes → Bytes
  sum_if need_md5 passwd = if need_md5 then salted_sum passwd else passwd

  -- The key of a login, from the stamp of the server's banner.
  abbrev pub login_key : Bool → Bytes → Bytes → Bytes
  login_key need_md5 passwd stamp = md5_hex (stamp ++ sum_if need_md5 passwd)

abbrev pub line1 : Bytes → Bytes → Bytes
line1 name a = name ++ blank ∷ arg_escape a ++ newline ∷ []

abbrev pub line2 : Bytes → Bytes → Bytes → Bytes
line2 name a b = name ++ blank ∷ arg_escape a ++ blank ∷ arg_escape b ++ newline ∷ []

abbrev pub line3 : Bytes → Bytes → Bytes → Bytes → Bytes
line3 name a b c =
    name ++ blank ∷ arg_escape a ++ blank ∷ arg_escape b ++ blank ∷ arg_escape c ++ newline ∷ []

module _ (md5_hex encrypted : Bytes → Bytes) (daemon_stamp : Bytes) where
  unfoldable pub make_command : Command → Bytes
  make_command (client protocol_version client_name) =
      line2 (codes "client") protocol_version client_name
  make_command (auth need_md5 user passwd) =
      line2 (codes "auth") user (login_key md5_hex need_md5 passwd daemon_stamp)
  make_command (register need_md5 user passwd email) =
      line3 (codes "register") user (encrypted (sum_if md5_hex need_md5 passwd)) email
  make_command (change_passwd need_md5 user old_passwd new_passwd) =
      line3 (codes "change_password") user (encrypted (salted_sum md5_hex old_passwd))
        (encrypted (sum_if md5_hex need_md5 new_passwd))
  make_command (lookup word) = line1 (codes "lookup") word
  make_command (previous word) = line1 (codes "previous") word
  make_command (next word) = line1 (codes "next") word
  make_command (query word) = line1 (codes "query") word
  make_command (select_query word) = line1 (codes "selectquery") word
  make_command (define word) = line1 (codes "define") word
  make_command (set_dict_mask dictmask) = line1 (codes "setdictmask") dictmask
  make_command get_dict_mask = codes "getdictmask\n"
  make_command (set_collate_func func) = line1 (codes "setcollatefunc") func
  make_command get_collate_func = codes "getcollatefunc\n"
  make_command (set_language lang) = line1 (codes "setlanguage") lang
  make_command get_language = codes "getlanguage\n"
  make_command (set_email email) = line1 (codes "setemail") email
  make_command get_email = codes "getemail\n"
  make_command get_user_level = codes "getuserlevel\n"
  make_command max_dict_count = codes "maxdictcount\n"
  make_command (dir_info path) = line1 (codes "dirinfo") path
  make_command (dict_info uid) = line1 (codes "dictinfo") uid
  make_command (dicts_list dicts) = line1 (codes "dictslist") dicts
  make_command (user_level user fromlevel tolevel) =
      line3 (codes "userlevel") user fromlevel tolevel
  make_command from_to = codes "fromto\n"
  make_command (tmp_dictmask dicts) = line1 (codes "tmpdictmask") dicts
  make_command quit = codes "quit\n"
