-- ===== src/Session/Frame.antt =====
-- What the steps of a session leave alone (source_codes/stardictd/src/daemon.cpp). A frame is a
-- relation between the states before and behind a step that does not look at the output, the log,
-- the database, the dictionaries, the identity and the level of the user, and that reading a setting
-- satisfies; it may look at `auth_user` and at the process's stamp.
pub mod Queries
use stardictd.Base.{
  ℕ, Bool, true, false, List, [], ◌∷◌, ◌++◌, Option, none, some, Bytes, Bool-cases, if◌then◌else◌,
  inl, inr, ltb, length, get_elem?,
}
use stardictd.Base.Int.{ℤ}
use stardictd.Conf.{Conf}
use stardictd.Conf
use stardictd.Db.{Conn, Row}
use stardictd.Db
use stardictd.Main.{Main}
use stardictd.Session.{
  Server, Session, LogLevel, Outcome, goes, returns, exits, undefined, M, Done, ◌>>=◌, ◌>>◌, give,
  stop, call, crash, get, set_user_id, set_level, update_main, net_write, net_writes, daemon_printf,
  log, refuse_if, conf_str, conf_int, conf_bool, column, first_row, buffersize, result_or_refuse,
}
use stardictd.Session.Database.{
  connect, init_database, quoted, run_query, ask_result, store_result, connect_or_refuse,
  query_or_refuse,
}

module _ {D L : Type 0} (R : Session D L → Session D L → Type 0) where
  abbrev pub After : {A : Type 0} → Session D L → Outcome (Session D L) A → Type 0
  After s (goes a s') = R s s'
  After s (returns s') = R s s'
  After s (exits s') = R s s'
  After s undefined = Unit

  pub record Keeps {A : Type 0} (m : M D L A) : Type 0 where
    pub kept : (s : Session D L) → After s (m s)

  pub record IsFrame : Type 0 where
    pub same : (s : Session D L) → R s s
    pub then_ : (a b c : Session D L) → R a b → R b c → R a c
    pub sends : (s : Session D L) (t : List Bytes) → R s (record s { sent = t })
    pub logs : (s : Session D L) (t : List (LogLevel × Bytes)) → R s (record s { logged = t })
    pub asks : (s : Session D L) (c : Conn D) → R s (record s { conn = c })
    pub turns : (s : Session D L) (m : Main L) → R s (record s { main = m })
    pub names : (s : Session D L) (id : Bytes) → R s (record s { user_id = id })
    pub ranks : (s : Session D L) (n : ℤ) → R s (record s { level = n })
    pub reads_str :
        (s : Session D L) (k : Bytes) → R s (record s { conf = (Conf.get_str s.conf k).0 })
    pub reads_int :
        (s : Session D L) (k : Bytes) → R s (record s { conf = (Conf.get_int s.conf k).0 })
    pub reads_bool :
        (s : Session D L) (k : Bytes) → R s (record s { conf = (Conf.get_bool s.conf k).0 })

module _ {D L : Type 0} {R : Session D L → Session D L → Type 0} (frame : IsFrame R) where
  later :
      {B : Type 0} (s s' : Session D L) (o : Outcome (Session D L) B)
      → R s s'
      → After R s' o
      → After R s o
  later s s' (goes a s'') h h' = frame.then_ s s' s'' h h'
  later s s' (returns s'') h h' = frame.then_ s s' s'' h h'
  later s s' (exits s'') h h' = frame.then_ s s' s'' h h'
  later s s' undefined h h' = tt

  After-bind :
      {A B : Type 0} (f : A → M D L B)
      → ((a : A) → Keeps R (f a))
      → (s : Session D L) (o : Outcome (Session D L) A) → After R s o
      → After R s ((◌>>=◌ (λ _. o) f) s)
  After-bind f kf s (goes a s') h = later s s' (f a s') h ((kf a).kept s')
  After-bind f kf s (returns s') h = h
  After-bind f kf s (exits s') h = h
  After-bind f kf s undefined h = tt

  pub Keeps-bind :
      {A B : Type 0} {m : M D L A} {f : A → M D L B}
      → Keeps R m
      → ((a : A) → Keeps R (f a))
      → Keeps R (m >>= f)
  Keeps-bind {m = m} {f = f} km kf = record { kept = λ s. After-bind f kf s (m s) (km.kept s) }

  After-call :
      (s : Session D L) (o : Outcome (Session D L) Done) → After R s o → After R s (call (λ _. o) s)
  unfolding call
  After-call s (goes a s') h = h
  After-call s (returns s') h = h
  After-call s (exits s') h = h
  After-call s undefined h = tt

  pub Keeps-call : {m : M D L Done} → Keeps R m → Keeps R (call m)
  unfolding call
  Keeps-call {m = m} km = record { kept = λ s. After-call s (m s) (km.kept s) }

  pub Keeps-give : {A : Type 0} (a : A) → Keeps R (give {D = D} {L = L} a)
  Keeps-give a = record { kept = frame.same }

  pub Keeps-get : {A : Type 0} (f : Session D L → A) → Keeps R (get f)
  Keeps-get f = record { kept = frame.same }

  pub Keeps-stop : {A : Type 0} → Keeps R (stop {D = D} {L = L} {A = A})
  unfolding stop
  Keeps-stop = record { kept = frame.same }

  pub Keeps-set_user_id : (id : Bytes) → Keeps R (set_user_id id)
  unfolding set_user_id
  Keeps-set_user_id id = record { kept = λ s. frame.names s id }

  pub Keeps-set_level : (n : ℤ) → Keeps R (set_level n)
  unfolding set_level
  Keeps-set_level n = record { kept = λ s. frame.ranks s n }

  pub Keeps-update_main : (f : Main L → Main L) → Keeps R (update_main f)
  unfolding update_main
  Keeps-update_main f = record { kept = λ s. frame.turns s (f s.main) }

  pub Keeps-net_write : (bytes : Bytes) → Keeps R (net_write bytes)
  unfolding net_write
  Keeps-net_write bytes = record { kept = λ s. frame.sends s (s.sent ++ bytes ∷ []) }

  pub Keeps-daemon_printf : (text : Bytes) → Keeps R (daemon_printf text)
  unfolding daemon_printf
  Keeps-daemon_printf text = record {
    kept = λ s. elim (Bool-cases (ltb (length text) buffersize)) [
      | inl e ↦ rw e (frame.sends s (s.sent ++ text ∷ []))
      | inr e ↦ rw e (frame.same s)
    ];
  }

  pub Keeps-log : (at : LogLevel) (text : Bytes) → Keeps R (log at text)
  unfolding log
  Keeps-log at text = record { kept = λ s. frame.logs s (s.logged ++ (at, text) ∷ []) }

  pub Keeps-refuse : {A : Type 0} (text : Bytes) → Keeps R (◌>>◌ {B = A} (daemon_printf text) stop)
  Keeps-refuse text = Keeps-bind (Keeps-daemon_printf text) λ _. Keeps-stop

  pub Keeps-refuse_if : (c : Bool) (line : Bytes) → Keeps R (refuse_if c line)
  unfolding refuse_if
  Keeps-refuse_if true line = Keeps-refuse line
  Keeps-refuse_if false line = Keeps-give tt

  pub Keeps-if :
      {A : Type 0} {m k : M D L A} (b : Bool) → Keeps R m → Keeps R k → Keeps R (if b then m else k)
  Keeps-if true km kk = km
  Keeps-if false km kk = kk

  pub Keeps-net_writes : (texts : List Bytes) → Keeps R (net_writes texts)
  unfolding net_writes
  Keeps-net_writes texts = record { kept = λ s. frame.sends s (s.sent ++ texts) }

  pub Keeps-conf_str : (key : Bytes) → Keeps R (conf_str key)
  unfolding conf_str
  Keeps-conf_str key = record { kept = λ s. frame.reads_str s key }

  pub Keeps-conf_int : (key : Bytes) → Keeps R (conf_int key)
  unfolding conf_int
  Keeps-conf_int key = record { kept = λ s. frame.reads_int s key }

  pub Keeps-conf_bool : (key : Bytes) → Keeps R (conf_bool key)
  unfolding conf_bool
  Keeps-conf_bool key = record { kept = λ s. frame.reads_bool s key }

  given :
      (o : Option (Option Bytes))
      → Keeps R (elim o as (λ _. M D L Bytes) [
        | some (some text) ↦ give text
        | some none ↦ crash
        | none ↦ crash
      ])
  unfolding crash
  given none = record { kept = λ s. tt }
  given (some none) = record { kept = λ s. tt }
  given (some (some text)) = Keeps-give text

  pub Keeps-column : (i : ℕ) (row : Row) → Keeps R (column i row)
  unfolding column
  Keeps-column i row = given (get_elem? row i)

  pub Keeps-first_row : (rows : List Row) (line : Bytes) → Keeps R (first_row rows line)
  unfolding first_row
  Keeps-first_row [] line = Keeps-refuse line
  Keeps-first_row (row ∷ rows) line = Keeps-give row
