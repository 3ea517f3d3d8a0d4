-- ===== src/Session/Kept/Settings.antt =====
-- Frames of the handlers for the user's own settings (source_codes/stardictd/src/daemon.cpp).
use stardictd.Base.{ℕ, Bool, true, false, Bytes}
use stardictd.Base.Int.{ℤ}
use stardictd.Session.{Server, Session}
use stardictd.Session.Frame.{IsFrame, Keeps}
use stardictd.Session.Profile.{
  require_user, require_enabled, require_collate, daemon_setdictmask, daemon_setcollatefunc,
  daemon_setlanguage, daemon_setemail, ask_column, dicts_list, daemon_getdictmask,
  daemon_getcollatefunc, daemon_getlanguage, daemon_getemail, daemon_getuserlevel,
  daemon_maxdictcount,
}
use stardictd.Session.Kept.{steps}

module _ {D L : Type 0} {R : Session D L → Session D L → Type 0} (frame : IsFrame R)
    (server : Server D L) where
  pub Keeps-require_user : (code : ℕ) → Keeps R (require_user {D = D} {L = L} code)
  unfolding require_user
  Keeps-require_user code = search (steps, frame) depth 20

  pub Keeps-require_enabled : (b : Bool) → Keeps R (require_enabled server b)
  unfolding require_enabled
  Keeps-require_enabled true = search (steps, frame) depth 20
  Keeps-require_enabled false = search (steps, frame) depth 20

  pub Keeps-require_collate : Keeps R (require_collate server)
  unfolding require_collate
  Keeps-require_collate = search (steps, frame, Keeps-require_enabled) depth 20

  pub Keeps-daemon_setdictmask : (dictmask : Bytes) → Keeps R (daemon_setdictmask server dictmask)
  unfolding daemon_setdictmask
  Keeps-daemon_setdictmask dictmask = search (steps, frame, Keeps-require_user) depth 20

  pub Keeps-daemon_setcollatefunc : (func : Bytes) → Keeps R (daemon_setcollatefunc server func)
  unfolding daemon_setcollatefunc
  Keeps-daemon_setcollatefunc func =
      search (steps, frame, Keeps-require_user, Keeps-require_collate) depth 20

  pub Keeps-daemon_setlanguage : (lang : Bytes) → Keeps R (daemon_setlanguage server lang)
  unfolding daemon_setlanguage
  Keeps-daemon_setlanguage lang = search (steps, frame, Keeps-require_user) depth 20

  pub Keeps-daemon_setemail : (email : Bytes) → Keeps R (daemon_setemail server email)
  unfolding daemon_setemail
  Keeps-daemon_setemail email = search (steps, frame, Keeps-require_user) depth 20

  pub Keeps-ask_column : (name : Bytes) → Keeps R (ask_column server name)
  unfolding ask_column
  Keeps-ask_column name = search (steps, frame) depth 20

  pub Keeps-dicts_list :
      (dictmask : Bytes) (max level : ℤ) → Keeps R (dicts_list server dictmask max level)
  unfolding dicts_list
  Keeps-dicts_list dictmask max level = record { kept = λ s. frame.turns s _ }

  pub Keeps-daemon_getdictmask : Keeps R (daemon_getdictmask server)
  unfolding daemon_getdictmask
  Keeps-daemon_getdictmask =
      search (steps, frame, Keeps-require_user, Keeps-ask_column, Keeps-dicts_list) depth 20

  pub Keeps-daemon_getcollatefunc : Keeps R (daemon_getcollatefunc server)
  unfolding daemon_getcollatefunc
  Keeps-daemon_getcollatefunc = search (steps, frame, Keeps-require_user, Keeps-ask_column) depth 20

  pub Keeps-daemon_getlanguage : Keeps R (daemon_getlanguage server)
  unfolding daemon_getlanguage
  Keeps-daemon_getlanguage = search (steps, frame, Keeps-require_user, Keeps-ask_column) depth 20

  pub Keeps-daemon_getemail : Keeps R (daemon_getemail server)
  unfolding daemon_getemail
  Keeps-daemon_getemail = search (steps, frame, Keeps-require_user, Keeps-ask_column) depth 20

  pub Keeps-daemon_getuserlevel : Keeps R (daemon_getuserlevel server)
  unfolding daemon_getuserlevel
  Keeps-daemon_getuserlevel = search (steps, frame, Keeps-require_user) depth 20

  pub Keeps-daemon_maxdictcount : Keeps R (daemon_maxdictcount server)
  unfolding daemon_maxdictcount
  Keeps-daemon_maxdictcount = search (steps, frame, Keeps-require_user) depth 20
