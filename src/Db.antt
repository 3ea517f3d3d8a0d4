-- ===== src/Db.antt =====
-- source_codes/stardictd/src/db.cpp: the connection to MySQL. libmysqlclient is a parameter over the
-- state `D` of what is outside the process: the database, the connection and the clock.
use stardictd.Base.{
  ℕ, Bool, true, false, List, [], ◌∷◌, Option, none, some, Bytes, if◌then◌else◌, ◌%◌, ◌^◌,
}
use stardictd.Base.Int.{ℤ}
use stardictd.Base.Decimal.{print_nat}

-- A column is `none` when it is NULL.
abbrev pub Row : Type 0
Row = List (Option Bytes)

-- A call that says whether it failed.
abbrev Call : Type 0 → Type 0
Call D = D → Bool × D

pub record Mysql (D : Type 0) : Type 0 where
  pub mysql_init : Call D
  -- host, user, password, database and port
  pub mysql_real_connect : Bytes → Bytes → Bytes → Bytes → ℤ → Call D
  pub mysql_real_query : Bytes → Call D
  pub mysql_store_result : D → Option (List Row) × D
  pub mysql_insert_id : D → ℕ
  pub mysql_real_escape_string : D → Bytes → Bytes
  pub time : D → ℕ

pub record Conn (D : Type 0) : Type 0 where
  pub inited : Bool
  pub mysql : D

module _ {D : Type 0} (lib : Mysql D) where
  -- `init` says whether it failed.
  unfoldable pub init : Bytes → Bytes → Bytes → Bytes → ℤ → Conn D → Bool × Conn D
  init host user passwd db port c =
      let (init_failed, d) = lib.mysql_init c.mysql in
      let (connect_failed, d') = lib.mysql_real_connect host user passwd db port d in
      if c.inited
      then (false, c)
      else (if init_failed
          then (true, record { inited = true; mysql = d })
          else (connect_failed, record { inited = true; mysql = d' }))

  unfoldable pub escape_string : Bytes → Conn D → Bytes
  escape_string from c = lib.mysql_real_escape_string c.mysql from

  unfoldable pub query : Bytes → Conn D → Bool × Conn D
  query sql c =
      let (failed, d) = lib.mysql_real_query sql c.mysql in (failed, record c { mysql = d })

  unfoldable pub get_result : Conn D → Option (List Row) × Conn D
  get_result c = let (rows, d) = lib.mysql_store_result c.mysql in (rows, record c { mysql = d })

  unfoldable pub last_insert_id : Conn D → Bytes
  last_insert_id c = print_nat (lib.mysql_insert_id c.mysql % 2 ^ 32)

-- `fetchRow` on a result that was just stored.
abbrev pub fetch_row : List Row → Option Row
fetch_row [] = none
fetch_row (row ∷ rows) = some row
