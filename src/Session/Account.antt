-- ===== src/Session/Account.antt =====
-- The commands of source_codes/stardictd/src/daemon.cpp that write accounts: `daemon_register`,
-- `daemon_change_password` and `daemon_userlevel`.
use stardictd.Base.{
  ℕ, ◌%◌, ◌^◌, Bool, false, not, ◌++◌, ◌∷◌, ◌||◌, ◌==◌, ltb, [], Bytes, codes, eqb, if◌then◌else◌,
  length,
}
use stardictd.Base.Int.{pos, eqb_ℤ, ltb_ℤ}
use stardictd.Base.Decimal.{print_nat, print_int, atoi}
use stardictd.Db
use stardictd.Session.{
  Server, M, Done, ◌>>=◌, ◌>>◌, give, get, set_user_id, daemon_printf, refuse_if, column, log,
  log_account, log_error, first_row, reply, bare, code_ok, code_denied,
}
use stardictd.Session.Database.{connect_or_refuse, query_or_refuse, run_query, quoted, ask_result}
use stardictd.Session.Auth.{root}

-- `strchr(s, c) != NULL`
abbrev pub holds_byte : ℕ → Bytes → Bool
holds_byte c [] = false
holds_byte c (d ∷ s) = d == c || holds_byte c s

module _ {D L : Type 0} (server : Server D L) where
  -- Anyone but root gives the old password as well.
  unfoldable pub check_old_password : Bytes → Bytes → M D L Done
  check_old_password user old_passwd = do
    name ← quoted server user
    query_or_refuse server
        (codes "SELECT user_md5saltpassword FROM stardict_users WHERE username=" ++ name)
        (reply code_denied (codes "Query failed!"))
    rows ← ask_result server (reply code_denied (codes "Get result failed!"))
    row ← first_row rows (reply code_denied (codes "user doesn't exist"))
    stored ← column 0 row
    refuse_if (not (eqb old_passwd stored)) (reply code_denied (codes "old password is wrong"))

  unfoldable pub write_password : Bytes → Bytes → M D L Done
  write_password user new_passwd = do
    password ← quoted server new_passwd
    name ← quoted server user
    query_or_refuse server
        (codes "UPDATE stardict_users SET user_md5saltpassword="
          ++ password
          ++ codes " WHERE username="
          ++ name)
        (reply code_denied (codes "Query failed!"))
    daemon_printf (bare code_ok)

  unfoldable pub daemon_change_password : Bytes → Bytes → Bytes → M D L Done
  daemon_change_password user old_text new_text = do
    let old_passwd = server.decrypted old_text
    let new_passwd = server.decrypted new_text
    refuse_if (not (length new_passwd == 32)) (reply code_denied (codes "wrong new password"))
    connect_or_refuse server
    me ← get λ s. s.auth_user
    if eqb me root then give tt else check_old_password user old_passwd
    write_password user new_passwd

  -- The row of `user_basic` that goes with a new account; a failure is only logged.
  unfoldable pub init_user_basic : Bytes → M D L Done
  init_user_basic email = do
    id ← get λ s. s.user_id
    register_time ← get λ s. print_nat (server.mysql.time s.conn.mysql % 2 ^ 32)
    address ← quoted server email
    let sql =
        codes "INSERT INTO user_basic (id, register_time, email) VALUES("
        ++ id
        ++ codes ","
        ++ register_time
        ++ codes ","
        ++ address
        ++ codes ")"
    failed ← run_query server sql
    if failed then log log_error (codes "Init user_basic table failed: " ++ sql) else give tt

  unfoldable pub insert_user : Bytes → Bytes → M D L Done
  insert_user user password = do
    name ← quoted server user
    sum ← quoted server password
    query_or_refuse server
        (codes "INSERT INTO stardict_users (username, user_md5saltpassword) VALUES("
          ++ name
          ++ codes ","
          ++ sum
          ++ codes ")")
        (reply code_denied (codes "user already exists"))
    id ← get λ s. Db.last_insert_id server.mysql s.conn
    set_user_id id

  unfoldable pub daemon_register : Bytes → Bytes → Bytes → M D L Done
  daemon_register user text email = do
    let password = server.decrypted text
    refuse_if (ltb 16 (length user) || not (length password == 32) || not (holds_byte b'@' email))
        (reply code_denied (codes "invalid parameter"))
    connect_or_refuse server
    insert_user user password
    init_user_basic email
    log log_account (codes "Register user: " ++ user ++ 32 ∷ password ++ 32 ∷ email)
    daemon_printf (reply code_ok (codes "registered"))

  -- A level is a number from 0 to 5.
  abbrev pub wrong_level : Bytes → Bool
  wrong_level text = eqb text [] || ltb_ℤ (atoi text) (pos 0) || ltb_ℤ (pos 5) (atoi text)

  unfoldable pub check_level : Bytes → Bytes → M D L Done
  check_level name fromlevel = do
    query_or_refuse server (codes "SELECT level FROM stardict_users WHERE username=" ++ name)
        (reply code_denied (codes "query user level failed"))
    rows ← ask_result server (reply code_denied (codes "Get result failed!"))
    row ← first_row rows (reply code_denied (codes "user doesn't exist."))
    clevel ← column 0 row
    refuse_if (not (eqb_ℤ (atoi clevel) (atoi fromlevel)))
        (reply code_denied (codes "current level is " ++ print_int (atoi clevel) ++ codes "."))

  unfoldable pub daemon_userlevel : Bytes → Bytes → Bytes → M D L Done
  daemon_userlevel user fromlevel tolevel = do
    me ← get λ s. s.auth_user
    refuse_if (not (eqb me root)) (reply code_denied (codes "no permission"))
    refuse_if (wrong_level fromlevel) (reply code_denied (codes "wrong from-level"))
    refuse_if (wrong_level tolevel || eqb_ℤ (atoi tolevel) (atoi fromlevel))
        (reply code_denied (codes "wrong to-level"))
    connect_or_refuse server
    name ← quoted server user
    check_level name fromlevel
    name' ← quoted server user
    query_or_refuse server
        (codes "UPDATE stardict_users SET level="
          ++ print_int (atoi tolevel)
          ++ codes " WHERE username="
          ++ name')
        (reply code_denied (codes "query failed"))
    log log_account (codes "Set user level: " ++ user ++ 32 ∷ fromlevel ++ 32 ∷ tolevel)
    daemon_printf (bare code_ok)
