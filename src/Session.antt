-- ===== src/Session.antt =====
-- The process that serves one client (source_codes/stardictd/src/daemon.cpp): its state, and the
-- steps that the commands are made of. A handler is a function of the state that may end early
-- (`return` in the source), end the process, or do what C++ leaves undefined.
pub mod Database
pub mod Auth
pub mod Account
pub mod Profile
pub mod Lookups
pub mod Requests
pub mod Dispatch
pub mod Frame
pub mod Kept
pub mod Authority
pub mod Completed
pub mod Levels
pub mod Login
pub mod Identity
pub mod Loop
pub mod Refused
pub mod Counts
pub mod Collates
pub mod Takeover
use stardictd.Base.{
  ℕ, ◌+◌, ◌<◌, Bool, true, false, List, [], ◌∷◌, ◌++◌, Option, none, some, Bytes, codes, ltb,
  if◌then◌else◌, length, get_elem?,
}
use stardictd.Base.Int.{ℤ}
use stardictd.Base.Decimal.{print_nat}
use stardictd.Compare.{Ordering}
use stardictd.Conf.{Conf}
use stardictd.Conf
use stardictd.Db.{Mysql, Conn, Row}
use stardictd.Db
use stardictd.Main.{Dictionaries, Main, Answers}

-- What a process asks of the libraries and of the parts of the program that are modelled apart.
-- `decrypted` is `g_base64_decode` and then `rsa_decrypt` with the process's key, `compare_version`
-- compares `atof` of a text with 0.4.
pub record Server (D L : Type 0) : Type 0 where
  pub mysql : Mysql D
  pub md5_hex : Bytes → Bytes
  pub decrypted : Bytes → Bytes
  pub compare_version : Bytes → Ordering
  pub dictionaries : Dictionaries L
  pub answers : Answers L

pub data LogLevel : Type 0 where
  log_error log_account : LogLevel

-- `sent` has the buffers given to `net_write`, the first in front.
pub record Session (D L : Type 0) : Type 0 where
  pub daemon_stamp : Bytes
  pub auth_user : Bytes
  pub user_id : Bytes
  pub level : ℤ
  pub conf : Conf
  pub conn : Conn D
  pub main : Main L
  pub sent : List Bytes
  pub logged : List (LogLevel × Bytes)

pub data Outcome (S A : Type 0) : Type 0 where
  goes : A → S → Outcome S A
  returns : S → Outcome S A
  exits : S → Outcome S A
  undefined : Outcome S A

-- The codes of source_codes/stardictd/src/codes.h.
abbrev pub code_hello : ℕ
code_hello = 220

abbrev pub code_goodbye : ℕ
code_goodbye = 221

abbrev pub code_ok : ℕ
code_ok = 250

abbrev pub code_temporarily_unavailable : ℕ
code_temporarily_unavailable = 420

abbrev pub code_syntax_error : ℕ
code_syntax_error = 500

abbrev pub code_denied : ℕ
code_denied = 521

abbrev pub code_dictmask_notset : ℕ
code_dictmask_notset = 522

abbrev pub code_user_not_register : ℕ
code_user_not_register = 523

abbrev pub buffersize : ℕ
buffersize = 10240

-- `"%d %s\n"` and `"%d\n"`
abbrev pub reply : ℕ → Bytes → Bytes
reply code text = print_nat code ++ 32 ∷ text ++ 10 ∷ []

abbrev pub bare : ℕ → Bytes
bare code = print_nat code ++ 10 ∷ []

abbrev pub M : Type 0 → Type 0 → Type 0 → Type 0
M D L A = Session D L → Outcome (Session D L) A

abbrev pub Done : Type 0
Done = Unit {0}

module _ {D L : Type 0} where
  infixl 5 ◌>>=◌ ◌>>◌
  abbrev pub ◌>>=◌ : {A B : Type 0} → M D L A → (A → M D L B) → M D L B
  ◌>>=◌ m f s = elim (m s) [
    | goes a s' ↦ f a s'
    | returns s' ↦ returns s'
    | exits s' ↦ exits s'
    | undefined ↦ undefined
  ]

  abbrev pub ◌>>◌ : {B : Type 0} → M D L Done → M D L B → M D L B
  m >> k = m >>= λ _. k

  abbrev pub give : {A : Type 0} → A → M D L A
  give a s = goes a s

  -- `return;`
  unfoldable pub stop : {A : Type 0} → M D L A
  stop s = returns s

  unfoldable pub crash : {A : Type 0} → M D L A
  crash s = undefined

  -- A call of a handler: its `return` ends the call only.
  unfoldable pub call : M D L Done → M D L Done
  call m s = elim (m s) [
    | goes a s' ↦ goes tt s'
    | returns s' ↦ goes tt s'
    | exits s' ↦ exits s'
    | undefined ↦ undefined
  ]

  -- A field that is read.
  abbrev pub get : {A : Type 0} → (Session D L → A) → M D L A
  get f s = goes (f s) s

  unfoldable pub set_daemon_stamp : Bytes → M D L Done
  set_daemon_stamp stamp s = goes tt (record s { daemon_stamp = stamp })

  unfoldable pub set_auth_user : Bytes → M D L Done
  set_auth_user user s = goes tt (record s { auth_user = user })

  unfoldable pub set_user_id : Bytes → M D L Done
  set_user_id id s = goes tt (record s { user_id = id })

  unfoldable pub set_level : ℤ → M D L Done
  set_level n s = goes tt (record s { level = n })

  unfoldable pub update_main : (Main L → Main L) → M D L Done
  update_main f s = goes tt (record s { main = f s.main })

  unfoldable pub net_write : Bytes → M D L Done
  net_write bytes s = goes tt (record s { sent = s.sent ++ bytes ∷ [] })

  -- `net_write_str` sends the terminator too.
  abbrev pub net_write_str : Bytes → M D L Done
  net_write_str text = net_write (text ++ 0 ∷ [])

  unfoldable pub net_writes : List Bytes → M D L Done
  net_writes texts s = goes tt (record s { sent = s.sent ++ texts })

  -- What does not fit into the buffer is not sent at all.
  unfoldable pub daemon_printf : Bytes → M D L Done
  daemon_printf text s =
      if ltb (length text) buffersize
      then goes tt (record s { sent = s.sent ++ text ∷ [] })
      else goes tt s

  unfoldable pub log : LogLevel → Bytes → M D L Done
  log at text s = goes tt (record s { logged = s.logged ++ (at, text) ∷ [] })

  -- `if (c) { daemon_printf(…); return; }`
  unfoldable pub refuse_if : Bool → Bytes → M D L Done
  refuse_if c line = if c then daemon_printf line >> stop else give tt

  unfoldable pub conf_str : Bytes → M D L Bytes
  conf_str key s = let (c, v) = Conf.get_str s.conf key in goes v (record s { conf = c })

  unfoldable pub conf_int : Bytes → M D L ℤ
  conf_int key s = let (c, v) = Conf.get_int s.conf key in goes v (record s { conf = c })

  unfoldable pub conf_bool : Bytes → M D L Bool
  conf_bool key s = let (c, v) = Conf.get_bool s.conf key in goes v (record s { conf = c })

  -- `atoi`, `std::string` and the like on a column: a NULL is not a text.
  unfoldable pub column : ℕ → Row → M D L Bytes
  column i row = elim (get_elem? row i) [
    | some (some text) ↦ give text
    | some none ↦ crash
    | none ↦ crash
  ]

  unfoldable pub result_or_refuse : Option (List Row) → Bytes → M D L (List Row)
  result_or_refuse (some rows) line = give rows
  result_or_refuse none line = daemon_printf line >> stop

  -- `fetchRow`, and the refusal when there is no row.
  unfoldable pub first_row : List Row → Bytes → M D L Row
  first_row rows line = elim (Db.fetch_row rows) [
    | some row ↦ give row
    | none ↦ daemon_printf line >> stop
  ]
