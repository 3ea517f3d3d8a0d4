-- ===== src/Session/Frame/Queries.antt =====
-- Frames of the steps that ask the database (source_codes/stardictd/src/daemon.cpp).
use stardictd.Base.{List, Option, none, some, Bytes}
use stardictd.Base.Int.{ℤ}
use stardictd.Db.{Conn, Row}
use stardictd.Db
use stardictd.Session.{Server, Session, result_or_refuse}
use stardictd.Session.Database.{
  connect, init_database, quoted, run_query, ask_result, store_result, connect_or_refuse,
  query_or_refuse,
}
use stardictd.Session.Frame.{
  IsFrame, Keeps, Keeps-bind, Keeps-give, Keeps-get, Keeps-refuse, Keeps-refuse_if, Keeps-conf_str,
  Keeps-conf_int,
}

module _ {D L : Type 0} {R : Session D L → Session D L → Type 0} (frame : IsFrame R)
    (server : Server D L) where
  Keeps-connect :
      (host user password dbname : Bytes) (port : ℤ)
      → Keeps R (connect server host user password dbname port)
  unfolding connect
  Keeps-connect host user password dbname port = record {
    kept = λ s. frame.asks s (Db.init server.mysql host user password dbname port s.conn).1;
  }

  pub Keeps-init_database : Keeps R (init_database server)
  unfolding init_database
  Keeps-init_database = Keeps-bind frame (Keeps-conf_str frame _) λ _.
      Keeps-bind frame (Keeps-conf_int frame _) λ _. Keeps-bind frame (Keeps-conf_str frame _) λ _.
        Keeps-bind frame (Keeps-conf_str frame _)
          λ _. Keeps-bind frame (Keeps-conf_str frame _) λ _. Keeps-connect _ _ _ _ _

  pub Keeps-quoted : (str : Bytes) → Keeps R (quoted server str)
  unfolding quoted
  Keeps-quoted str = Keeps-get frame _

  pub Keeps-run_query : (sql : Bytes) → Keeps R (run_query server sql)
  unfolding run_query
  Keeps-run_query sql = record { kept = λ s. frame.asks s (Db.query server.mysql sql s.conn).1 }

  pub Keeps-connect_or_refuse : Keeps R (connect_or_refuse server)
  Keeps-connect_or_refuse =
      Keeps-bind frame Keeps-init_database λ failed. Keeps-refuse_if frame failed _

  pub Keeps-query_or_refuse : (sql line : Bytes) → Keeps R (query_or_refuse server sql line)
  Keeps-query_or_refuse sql line =
      Keeps-bind frame (Keeps-run_query sql) λ failed. Keeps-refuse_if frame failed line

  Keeps-store_result : Keeps R (store_result server)
  unfolding store_result
  Keeps-store_result = record { kept = λ s. frame.asks s (Db.get_result server.mysql s.conn).1 }

  Keeps-result_or_refuse :
      (rows : Option (List Row)) (line : Bytes)
      → Keeps R (result_or_refuse {D = D} {L = L} rows line)
  unfolding result_or_refuse
  Keeps-result_or_refuse none line = Keeps-refuse frame line
  Keeps-result_or_refuse (some rows) line = Keeps-give frame rows

  pub Keeps-ask_result : (line : Bytes) → Keeps R (ask_result server line)
  Keeps-ask_result line =
      Keeps-bind frame Keeps-store_result λ rows. Keeps-result_or_refuse rows line
