-- ===== src/Session/Auth.antt =====
-- `daemon_auth` of source_codes/stardictd/src/daemon.cpp: a user proves that he knows the password
-- by the MD5 sum of the process's stamp and the salted sum of the password.
use stardictd.Base.{
  Bool, true, false, not, ◌++◌, [], Option, none, some, Bytes, codes, eqb, if◌then◌else◌,
}
use stardictd.Base.Int.{ℤ, pos, eqb_ℤ}
use stardictd.Base.Decimal.{print_int, atoi}
use stardictd.Db.{Row}
use stardictd.Db
use stardictd.Main.{set_dict_mask, set_server_collate_func, set_user_lang, set_user_level}
use stardictd.Session.{
  Server, M, Done, ◌>>=◌, ◌>>◌, give, get, set_auth_user, set_user_id, set_level, update_main,
  daemon_printf, refuse_if, conf_str, conf_int, conf_bool, column, first_row, reply, bare, code_ok,
  code_denied,
}
use stardictd.Session.Database.{connect_or_refuse, query_or_refuse, quoted, ask_result}

abbrev pub guest : Bytes
guest = codes "guest"

abbrev pub root : Bytes
root = codes "root"

-- What the sum of a password is taken of.
abbrev pub salted : Bytes → Bytes
salted password = codes "LoveCher" ++ password ++ codes "StarDict"

abbrev pub max_dict_count_key : ℤ → Bytes
max_dict_count_key level = codes "level-" ++ print_int level ++ codes "-user/max_dict_count"

module _ {D L : Type 0} (server : Server D L) where
  -- What the key of `root` is the sum of.
  unfoldable pub root_proof : M D L Bytes
  root_proof = do
    root_password ← conf_str (codes "root-user/password")
    refuse_if (eqb root_password []) (reply code_denied (codes "auth denied"))
    stamp ← get λ s. s.daemon_stamp
    give (stamp ++ server.md5_hex (salted root_password))

  -- What another user's key is the sum of; his identity and his level are set here.
  unfoldable pub user_proof : Bytes → M D L Bytes
  user_proof user = do
    connect_or_refuse server
    name ← quoted server user
    query_or_refuse server
        (codes "SELECT user_id, user_md5saltpassword, level FROM stardict_users WHERE username="
          ++ name)
        (reply code_denied (codes "Query failed!"))
    rows ← ask_result server (reply code_denied (codes "Get result failed!"))
    row ← first_row rows (reply code_denied (codes "User doesn't exist!"))
    id ← column 0 row
    set_user_id id
    text ← column 2 row
    set_level (atoi text)
    update_main (set_user_level (atoi text))
    sum ← column 1 row
    stamp ← get λ s. s.daemon_stamp
    give (stamp ++ sum)

  -- Level 0 users are given a collation only if the settings allow it.
  unfoldable pub collate_enabled : ℤ → M D L Bool
  collate_enabled level =
      if eqb_ℤ level (pos 0) then conf_bool (codes "level-0-user/enable_collate") else give true

  unfoldable pub apply_collate : Bool → Row → M D L Done
  apply_collate true row = do
    func ← column 1 row
    update_main (set_server_collate_func server.dictionaries (atoi func))
  apply_collate false row = update_main (set_server_collate_func server.dictionaries (pos 0))

  unfoldable pub apply_profile : Row → M D L Done
  apply_profile row = do
    level ← get λ s. s.level
    max_dict_count ← conf_int (max_dict_count_key level)
    dictmask ← column 0 row
    update_main (set_dict_mask server.dictionaries dictmask max_dict_count level)
    enable_collate ← collate_enabled level
    apply_collate enable_collate row
    lang ← column 2 row
    update_main (set_user_lang lang)

  unfoldable pub default_profile : M D L Done
  default_profile = do
    update_main (set_dict_mask server.dictionaries [] (pos 0) (pos 0))
    update_main (set_server_collate_func server.dictionaries (pos 0))

  unfoldable pub profile_or_default : Option Row → M D L Done
  profile_or_default (some row) = apply_profile row
  profile_or_default none = default_profile

  -- The user's settings, once he is authenticated.
  unfoldable pub load_profile : M D L Done
  load_profile = do
    id ← get λ s. s.user_id
    query_or_refuse server
        (codes "SELECT dictmask, collatefunc, language FROM user_basic WHERE id=" ++ id)
        (reply code_denied (codes "Query failed!"))
    rows ← ask_result server (reply code_denied (codes "Get result failed!"))
    profile_or_default (Db.fetch_row rows)

  -- Behind the right key, of root or of another user.
  unfoldable pub enter : Bool → M D L Done
  enter true = update_main (set_dict_mask server.dictionaries [] (pos 0) (pos 0))
  enter false = load_profile

  -- Whatever the user, his key is compared with the sum.
  unfoldable pub check_key : Bytes → Bytes → Bytes → M D L Done
  check_key user key proof = do
    refuse_if (not (eqb key (server.md5_hex proof))) (reply code_denied (codes "auth denied"))
    daemon_printf (reply code_ok (codes "authenticated"))
    set_auth_user user
    enter (eqb user root)

  unfoldable pub auth_guest : M D L Done
  auth_guest = daemon_printf (bare code_ok)

  unfoldable pub auth_root : Bytes → M D L Done
  auth_root key = do proof ← root_proof; check_key root key proof

  unfoldable pub auth_other : Bytes → Bytes → M D L Done
  auth_other user key = do proof ← user_proof user; check_key user key proof

  unfoldable pub daemon_auth : Bytes → Bytes → M D L Done
  daemon_auth user key =
      if eqb user guest
      then auth_guest
      else (if eqb user root then auth_root key else auth_other user key)
