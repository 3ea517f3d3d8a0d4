-- ===== src/Session/Profile.antt =====
-- The commands of source_codes/stardictd/src/daemon.cpp about the user's own settings. The user is
-- the one whose identity the session has.
use stardictd.Base.{ℕ, Bool, true, false, not, ◌++◌, ◌||◌, [], Bytes, codes, eqb}
use stardictd.Base.Int.{ℤ, pos, eqb_ℤ, ltb_ℤ}
use stardictd.Base.Decimal.{print_int, atoi}
use stardictd.Main.{set_server_collate_func}
use stardictd.Session.{
  Server, M, Done, ◌>>=◌, ◌>>◌, give, get, update_main, daemon_printf, refuse_if, column, first_row,
  reply, bare, code_ok, code_denied, code_user_not_register, Outcome, conf_bool, conf_int,
  net_write_str,
}
use stardictd.Session.Database.{connect_or_refuse, query_or_refuse, quoted, ask_result}
use stardictd.Session.Auth.{max_dict_count_key}
use stardictd.Session.Account.{holds_byte}

-- `COLLATE_FUNC_NUMS` of lib/collation.h
abbrev pub collate_func_nums : ℕ
collate_func_nums = 21

-- `i-1 >= COLLATE_FUNC_NUMS` for an `int`
abbrev pub wrong_collate : Bytes → Bool
wrong_collate func =
    eqb func [] || ltb_ℤ (atoi func) (pos 0) || ltb_ℤ (pos collate_func_nums) (atoi func)

module _ {D L : Type 0} where
  -- The first test of each of these commands.
  unfoldable pub require_user : ℕ → M D L Done
  require_user code = do
    id ← get λ s. s.user_id
    refuse_if (eqb id []) (reply code (codes "unknow user id"))

module _ {D L : Type 0} (server : Server D L) where
  unfoldable pub daemon_setdictmask : Bytes → M D L Done
  daemon_setdictmask dictmask = do
    require_user code_denied
    connect_or_refuse server
    value ← quoted server dictmask
    id ← get λ s. s.user_id
    query_or_refuse server
        (codes "UPDATE user_basic SET dictmask=" ++ value ++ codes " WHERE id=" ++ id)
        (reply code_denied (codes "query failed"))
    daemon_printf (bare code_ok)

  -- For level 0 the settings decide.
  unfoldable pub require_enabled : Bool → M D L Done
  require_enabled true = do
    enable_collate ← conf_bool (codes "level-0-user/enable_collate")
    refuse_if (not enable_collate)
        (reply code_denied (codes "level 0 user can't set collate function."))
  require_enabled false = give tt

  unfoldable pub require_collate : M D L Done
  require_collate = do level ← get λ s. s.level; require_enabled (eqb_ℤ level (pos 0))

  unfoldable pub daemon_setcollatefunc : Bytes → M D L Done
  daemon_setcollatefunc func = do
    require_user code_denied
    require_collate
    refuse_if (wrong_collate func) (reply code_denied (codes "wrong collate func"))
    connect_or_refuse server
    id ← get λ s. s.user_id
    query_or_refuse server
        (codes "UPDATE user_basic SET collatefunc="
          ++ print_int (atoi func)
          ++ codes " WHERE id="
          ++ id)
        (reply code_denied (codes "query failed"))
    update_main (set_server_collate_func server.dictionaries (atoi func))
    daemon_printf (bare code_ok)

  unfoldable pub daemon_setlanguage : Bytes → M D L Done
  daemon_setlanguage lang = do
    require_user code_denied
    connect_or_refuse server
    value ← quoted server lang
    id ← get λ s. s.user_id
    query_or_refuse server
        (codes "UPDATE user_basic SET language=" ++ value ++ codes " WHERE id=" ++ id)
        (reply code_denied (codes "query failed"))
    daemon_printf (bare code_ok)

  unfoldable pub daemon_setemail : Bytes → M D L Done
  daemon_setemail email = do
    require_user code_denied
    refuse_if (not (holds_byte b'@' email)) (reply code_denied (codes "invalid email"))
    connect_or_refuse server
    value ← quoted server email
    id ← get λ s. s.user_id
    query_or_refuse server
        (codes "UPDATE user_basic SET email=" ++ value ++ codes " WHERE id=" ++ id)
        (reply code_denied (codes "query failed"))
    daemon_printf (bare code_ok)

  -- A column of the user's row in `user_basic`, behind which the status line is sent.
  unfoldable pub ask_column : Bytes → M D L Bytes
  ask_column name = do
    connect_or_refuse server
    id ← get λ s. s.user_id
    query_or_refuse server (codes "SELECT " ++ name ++ codes " FROM user_basic WHERE id=" ++ id)
        (reply code_denied (codes "query failed"))
    rows ← ask_result server (reply code_denied (codes "get result failed"))
    row ← first_row rows (reply code_denied (codes "fetch row failed"))
    daemon_printf (bare code_ok)
    column 0 row

  unfoldable pub dicts_list : Bytes → ℤ → ℤ → M D L Bytes
  dicts_list dictmask max level s =
      let (text, libs) = server.dictionaries.get_dicts_list dictmask max level s.main.o_libs in
      Outcome.goes text (record s { main = record (s.main) { o_libs = libs } })

  unfoldable pub daemon_getdictmask : M D L Done
  daemon_getdictmask = do
    require_user code_user_not_register
    dictmask ← ask_column (codes "dictmask")
    level ← get λ s. s.level
    max_dict_count ← conf_int (max_dict_count_key level)
    dictmask_str ← dicts_list dictmask max_dict_count level
    net_write_str dictmask_str

  unfoldable pub daemon_getcollatefunc : M D L Done
  daemon_getcollatefunc = do
    require_user code_denied
    text ← ask_column (codes "collatefunc")
    net_write_str text

  unfoldable pub daemon_getlanguage : M D L Done
  daemon_getlanguage = do
    require_user code_denied
    text ← ask_column (codes "language")
    net_write_str text

  unfoldable pub daemon_getemail : M D L Done
  daemon_getemail = do
    require_user code_denied
    text ← ask_column (codes "email")
    net_write_str text

  unfoldable pub daemon_getuserlevel : M D L Done
  daemon_getuserlevel = do
    require_user code_denied
    daemon_printf (bare code_ok)
    level ← get λ s. s.level
    net_write_str (print_int level)

  unfoldable pub daemon_maxdictcount : M D L Done
  daemon_maxdictcount = do
    require_user code_user_not_register
    daemon_printf (bare code_ok)
    level ← get λ s. s.level
    max_dict_count ← conf_int (max_dict_count_key level)
    net_write_str (print_int max_dict_count)
