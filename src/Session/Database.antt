-- ===== src/Session/Database.antt =====
-- The steps of a handler that ask the database (source_codes/stardictd/src/daemon.cpp).
use stardictd.Base.{Bool, List, [], ◌∷◌, ◌++◌, Option, Bytes, codes}
use stardictd.Base.Int.{ℤ}
use stardictd.Command.{c_str}
use stardictd.Db.{Mysql, Conn, Row}
use stardictd.Db
use stardictd.Session.{
  Server, code_denied, reply, M, Done, get, refuse_if, conf_str, conf_int, result_or_refuse, goes,
  ◌>>=◌,
}

module _ {D L : Type 0} (server : Server D L) where
  unfoldable pub connect : Bytes → Bytes → Bytes → Bytes → ℤ → M D L Bool
  connect host user password dbname port s =
      let (failed, c) = Db.init server.mysql host user password dbname port s.conn in
      goes failed (record s { conn = c })

  unfoldable pub init_database : M D L Bool
  init_database = do
    db_host ← conf_str (codes "database/host")
    db_port ← conf_int (codes "database/port")
    db_user ← conf_str (codes "database/user")
    db_password ← conf_str (codes "database/password")
    db_dbname ← conf_str (codes "database/dbname")
    connect db_host db_user db_password db_dbname db_port

  -- `AppendMysql`, the quoted text that it appends; the text is measured by `strlen`.
  unfoldable pub quoted : Bytes → M D L Bytes
  quoted str = get λ s. 39 ∷ Db.escape_string server.mysql (c_str str) s.conn ++ 39 ∷ []

  unfoldable pub run_query : Bytes → M D L Bool
  run_query sql s =
      let (failed, c) = Db.query server.mysql sql s.conn in goes failed (record s { conn = c })

  unfoldable pub store_result : M D L (Option (List Row))
  store_result s =
      let (rows, c) = Db.get_result server.mysql s.conn in goes rows (record s { conn = c })

  -- `getResult`, and the refusal when there is none.
  abbrev pub ask_result : Bytes → M D L (List Row)
  ask_result line = do rows ← store_result; result_or_refuse rows line

  abbrev pub connect_or_refuse : M D L Done
  connect_or_refuse = do
    failed ← init_database
    refuse_if failed (reply code_denied (codes "Connect to MySQL failed!"))

  abbrev pub query_or_refuse : Bytes → Bytes → M D L Done
  query_or_refuse sql line = do failed ← run_query sql; refuse_if failed line
