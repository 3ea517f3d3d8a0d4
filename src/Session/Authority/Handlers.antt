-- ===== src/Session/Authority/Handlers.antt =====
-- No request makes anyone root but a login with the key (source_codes/stardictd/src/daemon.cpp).
use stardictd.Base.{List, ◌⊎◌, inr, refl, Bytes, eqb}
use stardictd.Session.{Server, Session}
use stardictd.Session.Requests.{
  Request, no_command, unknown_command, quit, client, auth, lookup, previous, next, query,
  selectquery, define, smartquery, register, change_password, setdictmask, setcollatefunc,
  setlanguage, setemail, getdictmask, getcollatefunc, getlanguage, getemail, getuserlevel,
  maxdictcount, dirinfo, dictinfo, dictslist, tmpdictmask, userlevel, fromto, getadinfo,
}
use stardictd.Session.Dispatch.{execute, daemon_quit, terminate}
use stardictd.Session.Auth.{root, guest, daemon_auth}
use stardictd.Session.Frame.{After, Keeps, Keeps-bind, Keeps-daemon_printf}
use stardictd.Session.Kept
use stardictd.Main.{Main}
use stardictd.Session.Lookups.{
  answer_if_chosen, daemon_lookup, daemon_previous, daemon_next, daemon_query, daemon_selectquery,
  daemon_define, daemon_smartquery,
}
use stardictd.Session.Authority.{NoNewRoot, same-NoNewRoot, NoNewRoot-IsFrame, ProvesRoot}
use stardictd.Session.Authority.Keys.{guests, routed}
use stardictd.Session.Kept.Settings
use stardictd.Session.Kept.Words

module _ {D L : Type 0} (server : Server D L) where
  abbrev pub Step : Session D L → Request → Type 0
  Step s r = ProvesRoot server s r ⊎ After NoNewRoot s (execute server r s)

  terminate-NoNewRoot : Keeps NoNewRoot (terminate server)
  unfolding terminate
  terminate-NoNewRoot = record { kept = same-NoNewRoot }

  quit-NoNewRoot : Keeps NoNewRoot (daemon_quit server)
  unfolding daemon_quit
  quit-NoNewRoot =
      Keeps-bind NoNewRoot-IsFrame (Keeps-daemon_printf NoNewRoot-IsFrame _)
        λ _. terminate-NoNewRoot

  -- The seven requests for words.
  words-NoNewRoot : (f : Main L → List Bytes × L) → Keeps NoNewRoot (answer_if_chosen server f)
  words-NoNewRoot = Words.Keeps-answer_if_chosen NoNewRoot-IsFrame server (guests server)

  pub execute-Step : (r : Request) (s : Session D L) → Step s r
  unfolding execute daemon_auth daemon_lookup daemon_previous daemon_next daemon_query
      daemon_selectquery daemon_define daemon_smartquery
  execute-Step no_command s = inr ((Keeps-daemon_printf NoNewRoot-IsFrame _).kept s)
  execute-Step unknown_command s = inr ((Keeps-daemon_printf NoNewRoot-IsFrame _).kept s)
  execute-Step quit s = inr (quit-NoNewRoot.kept s)
  execute-Step (client protocol) s =
      inr ((Words.Keeps-daemon_client NoNewRoot-IsFrame server protocol).kept s)
  execute-Step (auth user key) s = routed server user key s (eqb user guest) (eqb user root) refl
  execute-Step (lookup word n) s = inr ((words-NoNewRoot _).kept s)
  execute-Step (previous word n) s = inr ((words-NoNewRoot _).kept s)
  execute-Step (next word n) s = inr ((words-NoNewRoot _).kept s)
  execute-Step (query word) s = inr ((words-NoNewRoot _).kept s)
  execute-Step (selectquery word) s = inr ((words-NoNewRoot _).kept s)
  execute-Step (define word) s = inr ((words-NoNewRoot _).kept s)
  execute-Step (smartquery word begin_pos) s = inr ((words-NoNewRoot _).kept s)
  execute-Step (register user password email) s =
      inr ((Kept.Keeps-daemon_register NoNewRoot-IsFrame server user password email).kept s)
  execute-Step (change_password user old new) s =
      inr ((Kept.Keeps-daemon_change_password NoNewRoot-IsFrame server user old new).kept s)
  execute-Step (setdictmask dictmask) s =
      inr ((Settings.Keeps-daemon_setdictmask NoNewRoot-IsFrame server dictmask).kept s)
  execute-Step (setcollatefunc func) s =
      inr ((Settings.Keeps-daemon_setcollatefunc NoNewRoot-IsFrame server func).kept s)
  execute-Step (setlanguage lang) s =
      inr ((Settings.Keeps-daemon_setlanguage NoNewRoot-IsFrame server lang).kept s)
  execute-Step (setemail email) s =
      inr ((Settings.Keeps-daemon_setemail NoNewRoot-IsFrame server email).kept s)
  execute-Step getdictmask s =
      inr ((Settings.Keeps-daemon_getdictmask NoNewRoot-IsFrame server).kept s)
  execute-Step getcollatefunc s =
      inr ((Settings.Keeps-daemon_getcollatefunc NoNewRoot-IsFrame server).kept s)
  execute-Step getlanguage s =
      inr ((Settings.Keeps-daemon_getlanguage NoNewRoot-IsFrame server).kept s)
  execute-Step getemail s = inr ((Settings.Keeps-daemon_getemail NoNewRoot-IsFrame server).kept s)
  execute-Step getuserlevel s =
      inr ((Settings.Keeps-daemon_getuserlevel NoNewRoot-IsFrame server).kept s)
  execute-Step maxdictcount s =
      inr ((Settings.Keeps-daemon_maxdictcount NoNewRoot-IsFrame server).kept s)
  execute-Step (dirinfo path) s =
      inr ((Words.Keeps-daemon_dirinfo NoNewRoot-IsFrame server path).kept s)
  execute-Step (dictinfo uid) s =
      inr ((Words.Keeps-daemon_dictinfo NoNewRoot-IsFrame server uid).kept s)
  execute-Step (dictslist dicts) s =
      inr ((Words.Keeps-daemon_dictslist NoNewRoot-IsFrame server dicts).kept s)
  execute-Step (userlevel user from to) s =
      inr ((Kept.Keeps-daemon_userlevel NoNewRoot-IsFrame server user from to).kept s)
  execute-Step fromto s = inr ((Words.Keeps-daemon_fromto NoNewRoot-IsFrame server).kept s)
  execute-Step getadinfo s = inr ((Words.Keeps-daemon_getadinfo NoNewRoot-IsFrame server).kept s)
  execute-Step (tmpdictmask dicts) s = inr (
      (Words.Keeps-daemon_LookupinTmpdictmask NoNewRoot-IsFrame server (guests server) dicts).kept
        s)
