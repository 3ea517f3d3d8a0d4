-- ===== src/Session/Identity.antt =====
-- A user other than root is let in (`daemon_auth` of source_codes/stardictd/src/daemon.cpp).
use stardictd.Base.{false, List, ◌∷◌, ◌++◌, ◌≡◌, some, Bytes, eqb, codes, get_elem?}
use stardictd.Base.Decimal.{atoi}
use stardictd.Db.{Conn, Row}
use stardictd.Db
use stardictd.Main.{set_user_level}
use stardictd.Session.{
  Server, Session, M, Done, ◌>>=◌, ◌>>◌, give, get, first_row, column, daemon_printf, set_auth_user,
  set_user_id, set_level, update_main, reply, code_ok, code_denied,
}
use stardictd.Session.Database.{query_or_refuse, ask_result, quoted}
use stardictd.Session.Auth.{root, enter}
use stardictd.Session.Levels.{name_in}

module _ {D L : Type 0} (server : Server D L) where
  -- The query for a user's row.
  abbrev pub user_query : Bytes → Bytes
  user_query name =
      codes "SELECT user_id, user_md5saltpassword, level FROM stardict_users WHERE username="
      ++ name

  -- A user's row in the database: his identity, the sum of his password and his level.
  abbrev pub HasRow : Bytes → Conn D → Bytes → Bytes → Bytes → Type 0
  HasRow user before id sum level =
      (c c' : Conn D) × (row : Row) × (rows : List Row) × (Db.query server.mysql
          (user_query (name_in server user before)) before
        ≡ (false, c))
      × (Db.get_result server.mysql c ≡ (some (row ∷ rows), c'))
      × (get_elem? row 0 ≡ some (some id))
      × (get_elem? row 1 ≡ some (some sum))
      × (get_elem? row 2 ≡ some (some level))

  abbrev give_sum : Bytes → M D L Bytes
  give_sum sum = do stamp ← get λ s. s.daemon_stamp; give (stamp ++ sum)

  abbrev rank_user : Row → Bytes → M D L Bytes
  rank_user row text = do
    set_level (atoi text)
    update_main (set_user_level (atoi text))
    sum ← column 1 row
    give_sum sum

  abbrev name_user : Row → Bytes → M D L Bytes
  name_user row id = do set_user_id id; text ← column 2 row; rank_user row text

  abbrev read_user : Row → M D L Bytes
  read_user row = do id ← column 0 row; name_user row id

  abbrev read_row : List Row → M D L Bytes
  read_row rows = do
    row ← first_row rows (reply code_denied (codes "User doesn't exist!"))
    read_user row

  abbrev read_answer : M D L Bytes
  read_answer = do
    rows ← ask_result server (reply code_denied (codes "Get result failed!"))
    read_row rows

  abbrev ask_user : Bytes → M D L Bytes
  ask_user user = do
    name ← quoted server user
    query_or_refuse server (user_query name) (reply code_denied (codes "Query failed!"))
    read_answer

  abbrev SameUser : Session D L → Session D L → Type 0
  SameUser s t = t.auth_user ≡ s.auth_user

  abbrev let_in : Bytes → M D L Done
  let_in user = do set_auth_user user; enter server (eqb user root)

  abbrev tell_and_let_in : Bytes → M D L Done
  tell_and_let_in user = do daemon_printf (reply code_ok (codes "authenticated")); let_in user
